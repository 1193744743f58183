-- ===== src/Server/Rejoin.antt =====
-- The peers of a node of internal/server/server.go after a restart.
use quorum_log.Prelude.{
  ℕ, ◌≡◌, refl, sym, ap, ◌∙◌, String, Bool, true, false, Option, none, some, List, [], ◌∷◌,
  if◌then◌else◌, ◌==◌, nat_eq, arith, Bool-cases, inl, inr, subst, lookup,
}
use quorum_log.Prelude.GoMap
use quorum_log.Prelude.GoMap.{GoMap, IsMap}
use quorum_log.Prelude.Text.{parse_uint, Parsed, parsed, bad_syntax, out_of_range}
use quorum_log.Server.Peers.{
  PeersJson, Config, add_peers, load_peers_file, copy_peers, initial_peers,
}

abbrev pub is_id : ℕ → Parsed → Bool
is_id id (parsed n) = n == id
is_id id bad_syntax = false
is_id id out_of_range = false

abbrev pub or_else : Option String → Option String → Option String
or_else none b = b
or_else (some a) b = some a

-- The last URL that the file has for a node.
unfoldable pub last_saved : ℕ → List (String × String) → Option String
last_saved id [] = none
last_saved id ((k, u) ∷ more) =
    or_else (last_saved id more) (if is_id id (parse_uint k) then some u else none)

or_else_assoc : (a b c : Option String) → or_else (or_else a b) c ≡ or_else a (or_else b c)
or_else_assoc none b c = refl
or_else_assoc (some a) b c = refl

add_peer :
    (k : String) (u : String) (more : List (String × String)) (peers : GoMap ℕ String) (id : ℕ)
    (p : Parsed)
    → ((m : GoMap ℕ String)
        → GoMap.get (add_peers m more) id ≡ or_else (last_saved id more) (GoMap.get m id))
    → GoMap.get
        (elim p [
          | parsed n ↦ add_peers (GoMap.put peers n u) more
          | bad_syntax ↦ add_peers peers more
          | out_of_range ↦ add_peers peers more
        ])
        id
      ≡ or_else
          (last_saved id more)
          (or_else (if is_id id p then some u else none) (GoMap.get peers id))
add_peer k u more peers id (parsed n) again =
    again (GoMap.put peers n u)
    ∙ ap (or_else (last_saved id more)) (GoMap.get-put peers n id u ∙ choice (n == id))
  where
    choice :
        (b : Bool)
        → (if b then some u else GoMap.get peers id)
          ≡ or_else (if b then some u else none) (GoMap.get peers id)
    choice true = refl
    choice false = refl
add_peer k u more peers id bad_syntax again = again peers
add_peer k u more peers id out_of_range again = again peers

or_else-none : (a : Option String) → or_else a none ≡ a
or_else-none none = refl
or_else-none (some a) = refl

get-add_peers :
    (saved : List (String × String)) (peers : GoMap ℕ String) (id : ℕ)
    → GoMap.get (add_peers peers saved) id ≡ or_else (last_saved id saved) (GoMap.get peers id)
unfolding add_peers last_saved
get-add_peers [] peers id = refl
get-add_peers ((k, u) ∷ more) peers id =
    add_peer k u more peers id (parse_uint k) (λ m. get-add_peers more m id)
    ∙ sym (or_else_assoc (last_saved id more) _ (GoMap.get peers id))

abbrev from_entries : List (ℕ × String) → GoMap ℕ String
from_entries es = record { entries = es }

get-copy_peers :
    (es : List (ℕ × String)) (peers : GoMap ℕ String) (id : ℕ)
    → IsMap (from_entries es)
    → GoMap.get (copy_peers peers es) id ≡ or_else (lookup id es) (GoMap.get peers id)
unfolding copy_peers lookup
get-copy_peers [] peers id h = refl
get-copy_peers ((n, u) ∷ es) peers id h = elim (Bool-cases (n == id)) [
  | inl same ↦
      (let at : n ≡ id = ground (arith, same) in
        let last : lookup id es ≡ none = subst (λ k. lookup k es ≡ none) at h.0 in
        get-copy_peers es (GoMap.put peers n u) id h.1
        ∙ rw (last, GoMap.get-put peers n id u, same) refl)
  | inr other ↦
      get-copy_peers es (GoMap.put peers n u) id h.1 ∙ rw (GoMap.get-put peers n id u, other) refl
]

-- After a start a node has for each peer the last URL that the file has for it, and that of the flags
-- if the file has none.
pub get-initial_peers :
    (json : PeersJson) (cfg : Config) (bytes : List ℕ) (saved : List (String × String)) (id : ℕ)
    → IsMap cfg.peers
    → json.unmarshal bytes ≡ some saved
    → GoMap.get (initial_peers json cfg (some bytes)) id
      ≡ or_else (last_saved id saved) (GoMap.get cfg.peers id)
unfolding initial_peers load_peers_file GoMap.get
get-initial_peers json cfg bytes saved id map h =
    rw (initial_peers, load_peers_file, h)
      (get-add_peers saved _ id
        ∙ ap (or_else (last_saved id saved)) (
            get-copy_peers cfg.peers.entries GoMap.empty id map
            ∙ ap (or_else (GoMap.get cfg.peers id)) (GoMap.get-empty id)
            ∙ or_else-none (GoMap.get cfg.peers id)))
