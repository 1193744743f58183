-- ===== src/Multihost/Client/Locations.antt =====
-- What leaderFromLocation in internal/multihost/traffic.go reads from a redirect to a node.
use Prim.Native.Char.{Char, code}
use Prim.Native.String.{◌∷◌ as cons, ◌++◌ as concat}
use text.Mathlib.Text.{starts_with}
use text.Mathlib.TextBridge.{IsPrefix}
use text.Mathlib.TextEquality.{starts_with_iff}
use text.Mathlib.TextPositions.{starts_with-append}
use text.Mathlib.TextLemmas.{
  nil-append, cons-append, append-nil, append_assoc, head-eq_of_cons-eq, tail-eq_of_cons-eq,
  cons≢nil,
}
use quorum_log.Prelude.{
  ℕ, ◌≡◌, ◌≢◌, refl, ap, ◌∙◌, sym, subst, String, true, false, Option, none, some, ◌==◌, nat_eq,
  string_eq, arith, Bool-cases, inl, inr, beq_of_ne,
}
use mathlib.Core.Option
use quorum_log.Prelude.Text.{before_first, trim_last}
use quorum_log.Multihost.Hosts.{has_code}
use quorum_log.Multihost.Client.{leader_from_location, has_kv}

-- Of a text with a prefix, the first character and the rest.
prefix_cons : (c d : Char) (p s : String) → IsPrefix (cons d p) (cons c s) → (d ≡ c) × IsPrefix p s
prefix_cons c d p s (rest, e) =
    let split = sym (cons-append d p rest) ∙ e in
    (head-eq_of_cons-eq split, (rest, tail-eq_of_cons-eq split))

-- A place where the path does not start is passed by.
pass :
    (c : Char) (s : String)
    → (IsPrefix "/kv/" (cons c s) → ⊥)
    → before_first (cons c s) "/kv/" ≡ Option.map (cons c) (before_first s "/kv/")
unfolding before_first
pass c s other = elim (Bool-cases (starts_with (cons c s) "/kv/")) [
  | inl e ↦ absurd (other ((starts_with_iff (cons c s) "/kv/").0 e))
  | inr e ↦ rw e refl
]

no_slash :
    (c : Char) (s p : String) → (code c == b'/') ≡ false → IsPrefix (cons "/" p) (cons c s) → ⊥
no_slash c s p e h = let at = ap code (prefix_cons c "/" p s h).0 in absurd (ground (arith, e, at))

map_twice :
    (f g : String → String) (o : Option String)
    → Option.map f (Option.map g o) ≡ Option.map (λ t. f (g t)) o
map_twice f g none = refl
map_twice f g (some t) = refl

map_same :
    (f g : String → String)
    → ((t : String) → f t ≡ g t)
    → (o : Option String) → Option.map f o ≡ Option.map g o
map_same f g same none = refl
map_same f g same (some t) = ap some (same t)

map_id : (f : String → String) → ((t : String) → f t ≡ t) → (o : Option String) → o ≡ Option.map f o
map_id f same none = refl
map_id f same (some t) = ap some (sym (same t))

skip :
    (host rest : String)
    → has_code b'/' host ≡ false
    → before_first (concat host rest) "/kv/" ≡ Option.map (concat host) (before_first rest "/kv/")
skip String.[] rest h =
    ap (λ s. before_first s "/kv/") (nil-append rest)
    ∙ map_id (concat "") nil-append (before_first rest "/kv/")
skip (String.◌∷◌ c host) rest h =
    let other : (code c == b'/') ≡ false = ground (arith, h) in
    let more : has_code b'/' host ≡ false = ground (arith, h) in
    ap (λ s. before_first s "/kv/") (cons-append c host rest)
    ∙ pass c (concat host rest) (no_slash c (concat host rest) "kv/" other)
    ∙ ap (Option.map (cons c)) (skip host rest more)
    ∙ map_twice (cons c) (concat host) (before_first rest "/kv/")
    ∙ map_same (λ t. cons c (concat host t)) (concat (cons c host))
        (λ t. sym (cons-append c host t)) (before_first rest "/kv/")

-- The same, where the text is a host with something behind it.
step_on :
    (c d : Char) (p s rest : String)
    → IsPrefix (cons d p) (concat (cons c s) rest)
    → (d ≡ c) × IsPrefix p (concat s rest)
step_on c d p s rest h =
    prefix_cons c d p (concat s rest) (subst (IsPrefix (cons d p)) (cons-append c s rest) h)

-- Behind its host, a location goes on with a slash.
at_end :
    (d : Char) (p rest : String)
    → (code d == b'/') ≡ false
    → IsPrefix (cons d p) (concat "" (cons "/" rest))
    → ⊥
at_end d p rest e h =
    let q = subst (IsPrefix (cons d p)) (nil-append (cons "/" rest)) h in
    absurd (ground (arith, e, ap code (prefix_cons "/" d p rest q).0))

-- Behind a slash, a host does not read as the path's start.
not_path :
    (host rest : String)
    → has_code b'/' host ≡ false
    → host ≢ "kv"
    → IsPrefix "kv/" (concat host (cons "/" rest))
    → ⊥
not_path String.[] rest h other p = at_end "k" "v/" rest refl p
not_path (String.◌∷◌ c String.[]) rest h other p =
    at_end "v" "/" rest refl (step_on c "k" "v/" "" (cons "/" rest) p).1
not_path (String.◌∷◌ c (String.◌∷◌ d String.[])) rest h other p =
    let (k, q) = step_on c "k" "v/" (cons d "") (cons "/" rest) p in
    let (v, r) = step_on d "v" "/" "" (cons "/" rest) q in
    other (sym (ap (λ x. cons x "v") k ∙ ap (λ x. cons c (cons x "")) v))
not_path (String.◌∷◌ c (String.◌∷◌ d (String.◌∷◌ e host))) rest h other p =
    let (k, q) = step_on c "k" "v/" (cons d (cons e host)) (cons "/" rest) p in
    let (v, r) = step_on d "v" "/" (cons e host) (cons "/" rest) q in
    let slash = ap code (step_on e "/" "" host (cons "/" rest) r).0 in
    absurd (ground (arith, h, slash))

pub path_found : (key : String) → before_first (concat "/kv/" key) "/kv/" ≡ some ""
unfolding before_first
path_found key =
    ap (λ s. before_first s "/kv/") (cons-append "/" "kv/" key)
    ∙ rw
        (subst (λ s. starts_with s "/kv/" ≡ true) (cons-append "/" "kv/" key)
          (starts_with-append "/kv/" key))
        refl

pass_slash :
    (s : String)
    → (IsPrefix "kv/" s → ⊥)
    → before_first (cons "/" s) "/kv/" ≡ Option.map (cons "/") (before_first s "/kv/")
pass_slash s other = pass "/" s (λ h. other (prefix_cons "/" "/" "kv/" s h).1)

trim_unslashed : (s : String) → has_code b'/' s ≡ false → trim_last s b'/' ≡ s
unfolding trim_last
trim_unslashed String.[] h = refl
trim_unslashed (String.◌∷◌ c s) h =
    let other : (code c == b'/') ≡ false = ground (arith, h) in
    let more : has_code b'/' s ≡ false = ground (arith, h) in
    rw (trim_unslashed s more) (ground (arith, other))

pub concat-empty : (s t : String) → concat s t ≡ "" → t ≡ ""
concat-empty String.[] t e = sym (nil-append t) ∙ e
concat-empty (String.◌∷◌ c s) t e = absurd (cons≢nil (sym (cons-append c s t) ∙ e))

trim-concat : (n : ℕ) (s t : String) → t ≢ "" → trim_last (concat s t) n ≡ concat s (trim_last t n)
unfolding trim_last
trim-concat n String.[] t h =
    ap (λ u. trim_last u n) (nil-append t) ∙ sym (nil-append (trim_last t n))
trim-concat n (String.◌∷◌ c s) t h =
    ap (λ u. trim_last u n) (cons-append c s t)
    ∙ rw (beq_of_ne (λ e. h (concat-empty s t e))) refl
    ∙ ap (cons c) (trim-concat n s t h)
    ∙ sym (cons-append c s (trim_last t n))

slash_not_path : (s : String) → IsPrefix "kv/" (cons "/" s) → ⊥
slash_not_path s h = absurd (ground (arith, ap code (prefix_cons "/" "k" "v/" s h).0))

-- The URL of a node on a host.
abbrev pub url_of : String → String
url_of host = concat "http://" host

url_split :
    (host rest : String)
    → concat (url_of host) rest ≡ concat "http:" (cons "/" (cons "/" (concat host rest)))
url_split host rest =
    append_assoc "http://" host rest
    ∙ append_assoc "http:" "//" (concat host rest)
    ∙ ap (concat "http:") (
        cons-append "/" "/" (concat host rest)
        ∙ ap (cons "/")
            (cons-append "/" "" (concat host rest) ∙ ap (cons "/") (nil-append (concat host rest))))

module _ (host : String) (unslashed : has_code b'/' host ≡ false) (unlike : host ≢ "kv") where
  -- No path starts inside the URL of a node.
  before_first-url :
      (rest : String)
      → before_first (concat (url_of host) (cons "/" rest)) "/kv/"
        ≡ Option.map (concat (url_of host)) (before_first (cons "/" rest) "/kv/")
  before_first-url rest =
      let o = before_first (cons "/" rest) "/kv/" in
      let behind = concat host (cons "/" rest) in
      ap (λ s. before_first s "/kv/") (url_split host (cons "/" rest))
      ∙ skip "http:" (cons "/" (cons "/" behind)) refl
      ∙ ap (Option.map (concat "http:")) (
          pass_slash (cons "/" behind) (slash_not_path behind)
          ∙ ap (Option.map (cons "/")) (
              pass_slash behind (not_path host rest unslashed unlike)
              ∙ ap (Option.map (cons "/")) (skip host (cons "/" rest) unslashed)
              ∙ map_twice (cons "/") (concat host) o)
          ∙ map_twice (cons "/") (λ t. cons "/" (concat host t)) o)
      ∙ map_twice (concat "http:") (λ t. cons "/" (cons "/" (concat host t))) o
      ∙ map_same (λ t. concat "http:" (cons "/" (cons "/" (concat host t)))) (concat (url_of host))
          (λ t. sym (url_split host t)) o

  -- The location of a path at the node, and what stands in front of it.
  before_location :
      (key : String)
      → before_first (concat (url_of host) (concat "/kv/" key)) "/kv/" ≡ some (url_of host)
  before_location key =
      ap (λ s. before_first (concat (url_of host) s) "/kv/") (cons-append "/" "kv/" key)
      ∙ before_first-url (concat "kv/" key)
      ∙ ap (λ s. Option.map (concat (url_of host)) (before_first s "/kv/"))
          (sym (cons-append "/" "kv/" key))
      ∙ ap (Option.map (concat (url_of host))) (path_found key)
      ∙ ap some (append-nil (url_of host))

  -- The same behind a URL with a slash at its end.
  before_slashed :
      (key : String)
      → before_first (concat (url_of host) (concat "//kv/" key)) "/kv/"
        ≡ some (concat (url_of host) "/")
  before_slashed key =
      ap (λ s. before_first (concat (url_of host) s) "/kv/") (cons-append "/" "/kv/" key)
      ∙ before_first-url (concat "/kv/" key)
      ∙ ap (Option.map (concat (url_of host))) (
          pass_slash (concat "/kv/" key) (λ h.
            slash_not_path (concat "kv/" key)
              (subst (IsPrefix "kv/") (cons-append "/" "kv/" key) h))
          ∙ ap (Option.map (cons "/")) (path_found key))

  -- A location that names a path at the node, its URL with a slash at the end or without, leads there.
  abbrev pub Leads : String → Type 0
  Leads location =
      (has_kv (before_first location "/kv/") ≡ true) × (leader_from_location location ≡ url_of host)

  front_trimmed :
      (location front : String)
      → before_first location "/kv/" ≡ some front
      → trim_last front b'/' ≡ url_of host
      → Leads location
  unfolding leader_from_location
  front_trimmed location front found trimmed = rw (leader_from_location, found) (refl, trimmed)

  pub location-Leads : (key : String) → host ≢ "" → Leads (concat (url_of host) (concat "/kv/" key))
  location-Leads key named = front_trimmed _ (url_of host) (before_location key) (
      trim-concat b'/' "http://" host named ∙ ap (concat "http://") (trim_unslashed host unslashed))

  pub slashed-Leads : (key : String) → Leads (concat (url_of host) (concat "//kv/" key))
  unfolding trim_last
  slashed-Leads key =
      front_trimmed _ (concat (url_of host) "/") (before_slashed key)
        (trim-concat b'/' (url_of host) "/" (λ e. cc e) ∙ append-nil (url_of host))
