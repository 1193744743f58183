-- ===== src/Server/Peers.antt =====
-- The membership that internal/server/server.go keeps: onConfChange, loadPeersFile and
-- savePeersFileLocked.
use quorum_log.Prelude.{
  ℕ, String, Bool, Option, none, some, List, [], ◌∷◌, map, if◌then◌else◌, ◌==◌, nat_eq, string_eq,
}
use quorum_log.Prelude.GoMap
use quorum_log.Prelude.GoMap.{GoMap}
use quorum_log.Prelude.Decimal.{decimal}
use quorum_log.Prelude.Text.{parse_uint, parsed, bad_syntax, out_of_range}
use quorum_log.Raftpb.{ConfChange, conf_change_add_node, conf_change_remove_node}
use quorum_log.Engine.Interfaces.{Raft, Disk}
use quorum_log.Server.{Server}

-- encoding/json on a peersFile, as the pairs of its map; and Go's conversions between bytes and texts.
pub record PeersJson : Type 0 where
  pub marshal_indent : List (String × String) → List ℕ
  pub unmarshal : List ℕ → Option (List (String × String))
  pub to_string : List ℕ → String
  pub to_bytes : String → List ℕ

-- The loop of loadPeersFile.
unfoldable pub add_peers : GoMap ℕ String → List (String × String) → GoMap ℕ String
add_peers peers [] = peers
add_peers peers ((id, u) ∷ more) = elim (parse_uint id) [
  | parsed n ↦ add_peers (GoMap.put peers n u) more
  | bad_syntax ↦ add_peers peers more
  | out_of_range ↦ add_peers peers more
]

-- loadPeersFile
unfoldable pub load_peers_file : PeersJson → GoMap ℕ String → Option (List ℕ) → GoMap ℕ String
load_peers_file json peers none = peers
load_peers_file json peers (some bytes) = elim (json.unmarshal bytes) [
  | none ↦ peers
  | some saved ↦ add_peers peers saved
]

-- The loop of savePeersFileLocked.
abbrev pub named : List (ℕ × String) → List (String × String)
named = map (λ p. (decimal p.0, p.1))

-- What onConfChange does to the map.
unfoldable pub change_peers : PeersJson → GoMap ℕ String → ConfChange → GoMap ℕ String
change_peers json peers change =
    if change.kind == conf_change_add_node
    then (elim change.context [
      | [] ↦ peers
      | _ ∷ _ ↦ GoMap.put peers change.node_id (json.to_string change.context)
    ])
    else if change.kind == conf_change_remove_node
    then GoMap.delete peers change.node_id
    else peers

module _ {raft : Raft} {disk : Disk} (json : PeersJson) where
  -- savePeersFileLocked
  unfoldable pub save_peers_file : Server raft disk → Server raft disk
  save_peers_file s =
      if s.writable
      then record s { peers_file = some (json.marshal_indent (named s.peers.entries)) }
      else s

  -- onConfChange
  unfoldable pub on_conf_change : Server raft disk → ConfChange → Server raft disk
  on_conf_change s change = save_peers_file (record s { peers = change_peers json s.peers change })

-- Config, as far as New reads it; the tick interval in milliseconds.
pub record Config : Type 0 where
  pub id : ℕ
  pub peers : GoMap ℕ String
  pub join : Bool
  pub snapshot_threshold : ℕ
  pub snapshot_trailing : ℕ
  pub tick_interval : ℕ

abbrev or_default : ℕ → ℕ → ℕ
or_default n d = if n == 0 then d else n

-- The defaults at the top of New.
unfoldable pub with_defaults : Config → Config
with_defaults cfg = record cfg {
  tick_interval = or_default cfg.tick_interval 100;
  snapshot_threshold = or_default cfg.snapshot_threshold 10000;
  snapshot_trailing = or_default cfg.snapshot_trailing 64;
}

-- The loop of New over the peers of the flags.
unfoldable pub copy_peers : GoMap ℕ String → List (ℕ × String) → GoMap ℕ String
copy_peers peers [] = peers
copy_peers peers ((id, u) ∷ more) = copy_peers (GoMap.put peers id u) more

-- The peers that New starts with, those of the flags and of the file.
unfoldable pub initial_peers : PeersJson → Config → Option (List ℕ) → GoMap ℕ String
unfolding copy_peers load_peers_file
initial_peers json cfg file = load_peers_file json (copy_peers GoMap.empty cfg.peers.entries) file

-- The peers that New gives to the engine for a new cluster.
unfoldable pub bootstrap_peers : Config → List (ℕ × String)
bootstrap_peers cfg = if cfg.join then [] else cfg.peers.entries
