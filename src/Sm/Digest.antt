-- ===== src/Sm/Digest.antt =====
-- internal/sm/sm.go: Hash, by which the tests compare replicas. The hash of a text, of hash/fnv, is a
-- parameter.
use Prim.Native.String.{◌++◌ as concat}
use quorum_log.Prelude.{ℕ, String, Bool, true, false, List, [], ◌∷◌, ◌≡◌, refl, string_eq}
use quorum_log.Prelude.Decimal.{decimal}
use quorum_log.Prelude.GoMap
use quorum_log.Prelude.GoMap.{GoMap, IsMap}
use quorum_log.Prelude.Sorting.{sort_texts, sort_texts-keys}
use quorum_log.Sm.{Sm, Session}
use quorum_log.Sm.Persist.{IsSame}

-- `k|%s|%s\n` for each key
unfoldable pub kv_lines : GoMap String String → List String → String
kv_lines kv [] = ""
kv_lines kv (k ∷ ks) =
    concat "k|"
      (concat k (concat "|" (concat (GoMap.get_or kv k "") (concat "\n" (kv_lines kv ks)))))

-- the zero value of a session
abbrev no_session : Session
no_session = record { last_req = 0; last_res = record { val = ""; ok = false } }

-- `%v` of a Boolean
abbrev pub bool_text : Bool → String
bool_text true = "true"
bool_text false = "false"

abbrev session_line : String → Session → String
session_line c sess = concat "s|" (
    concat c (
      concat "|" (
        concat (decimal sess.last_req) (
          concat "|"
            (concat sess.last_res.val (concat "|" (concat (bool_text sess.last_res.ok) "\n")))))))

-- `s|%s|%d|%s|%v\n` for each client
unfoldable pub session_lines : GoMap String Session → List String → String
session_lines sessions [] = ""
session_lines sessions (c ∷ cs) =
    concat (session_line c (GoMap.get_or sessions c no_session)) (session_lines sessions cs)

-- What Hash writes to the hash.
unfoldable pub digest : Sm → String
unfolding kv_lines session_lines sort_texts
digest s =
    concat (kv_lines s.kv (sort_texts (GoMap.keys s.kv)))
      (session_lines s.sessions (sort_texts (GoMap.keys s.sessions)))

-- Hash
unfoldable pub hash : (String → ℕ) → Sm → ℕ
unfolding digest
hash fnv s = fnv (digest s)

kv_lines-IsSame :
    (s s' : Sm) → IsSame s s' → (ks : List String) → kv_lines s.kv ks ≡ kv_lines s'.kv ks
unfolding kv_lines GoMap.get_or
kv_lines-IsSame s s' h [] = refl
kv_lines-IsSame s s' h (k ∷ ks) = rw (h.kv k, kv_lines-IsSame s s' h ks) refl

session_lines-IsSame :
    (s s' : Sm)
    → IsSame s s'
    → (cs : List String) → session_lines s.sessions cs ≡ session_lines s'.sessions cs
unfolding session_lines GoMap.get_or
session_lines-IsSame s s' h [] = refl
session_lines-IsSame s s' h (c ∷ cs) = rw (h.sessions c, session_lines-IsSame s s' h cs) refl

-- Two machines whose maps have the same values have the same Hash, in whatever order their maps are
-- ranged over.
pub hash-IsSame :
    (fnv : String → ℕ) (s s' : Sm)
    → IsMap s.kv × IsMap s.sessions
    → IsMap s'.kv × IsMap s'.sessions
    → IsSame s s'
    → hash fnv s ≡ hash fnv s'
unfolding hash digest
hash-IsSame fnv s s' (kv, sessions) (kv', sessions') h =
    rw
      (
        kv_lines-IsSame s s' h (sort_texts (GoMap.keys s.kv)),
        session_lines-IsSame s s' h (sort_texts (GoMap.keys s.sessions)),
        sort_texts-keys s.kv s'.kv kv kv' h.kv,
        sort_texts-keys s.sessions s'.sessions sessions sessions' h.sessions,
      )
      refl
