-- ===== src/Multihost/Exec/Quoting.antt =====
-- What the shell makes of the words that ShellQuote of internal/multihost/exec.go writes.
use Prim.Native.Char.{Char, code}
use Prim.Native.String.{◌∷◌ as cons, ◌++◌ as concat}
use text.Mathlib.TextLemmas.{nil-append, cons-append, append_assoc}
use text.Mathlib.TextEquality.{Char-path}
use quorum_log.Prelude.{
  ◌≡◌, refl, ap, ◌∙◌, sym, String, false, Option, none, some, if◌then◌else◌, ◌==◌, nat_eq, arith,
  Bool-cases, inl, inr,
}
use quorum_log.Multihost.Exec.{escape_quotes, shell_quote}

-- The quoting of the POSIX shell, for single quotes and backslashes: outside quotes, inside them, and
-- behind a backslash.
pub data Quoting : Type 0 where
  bare quoted escaped : Quoting

abbrev pub in_front : String → Option String → Option String
in_front w none = none
in_front w (some rest) = some (concat w rest)

-- The text of a word from a state on; a word that ends inside quotes has none.
unfoldable pub read_word : Quoting → String → Option String
read_word bare String.[] = some ""
read_word quoted String.[] = none
read_word escaped String.[] = none
read_word bare (String.◌∷◌ c s) =
    if code c == b'\''
    then read_word quoted s
    else if code c == b'\\'
    then read_word escaped s
    else in_front (cons c "") (read_word bare s)
read_word quoted (String.◌∷◌ c s) =
    if code c == b'\'' then read_word bare s else in_front (cons c "") (read_word quoted s)
read_word escaped (String.◌∷◌ c s) = in_front (cons c "") (read_word bare s)

in_front_nothing : (o : Option String) → in_front "" o ≡ o
in_front_nothing none = refl
in_front_nothing (some w) = ap some (nil-append w)

-- A word that starts with a character.
front : (c : Char) (w : String) → concat (cons c "") w ≡ cons c w
front c w = cons-append c "" w ∙ ap (cons c) (nil-append w)

in_front_front :
    (c : Char) (s : String) (o : Option String)
    → in_front (cons c "") (in_front s o) ≡ in_front (cons c s) o
in_front_front c s none = refl
in_front_front c s (some w) = ap some (front c (concat s w) ∙ sym (cons-append c s w))

-- The text that stands for a quote.
escape_lem : (w : String) → concat "'\\''" w ≡ cons "'" (cons "\\" (cons "'" (cons "'" w)))
escape_lem w =
    cons-append "'" "\\''" w
    ∙ ap (cons "'") (
        cons-append "\\" "''" w
        ∙ ap (cons "\\") (cons-append "'" "'" w ∙ ap (cons "'") (front "'" w)))

plain :
    (c : Char) (w : String)
    → (code c == b'\'') ≡ false
    → read_word quoted (cons c w) ≡ in_front (cons c "") (read_word quoted w)
unfolding read_word
plain c w o = rw o refl

read_escaped :
    (s rest : String)
    → read_word quoted (concat (escape_quotes s) rest) ≡ in_front s (read_word quoted rest)
unfolding read_word escape_quotes
read_escaped String.[] rest =
    ap (read_word quoted) (nil-append rest) ∙ sym (in_front_nothing (read_word quoted rest))
read_escaped (String.◌∷◌ c s) rest = elim (Bool-cases (code c == b'\'')) [
  | inl q ↦ rw q (
      ap (read_word quoted)
        (append_assoc "'\\''" (escape_quotes s) rest ∙ escape_lem (concat (escape_quotes s) rest))
      ∙ ap (in_front (cons "'" "")) (read_escaped s rest)
      ∙ in_front_front "'" s (read_word quoted rest)
      ∙ ap (λ d. in_front (cons d s) (read_word quoted rest)) (Char-path "'" c (ground (arith, q))))
  | inr o ↦ rw o (
      ap (read_word quoted) (cons-append c (escape_quotes s) rest)
      ∙ plain c (concat (escape_quotes s) rest) o
      ∙ ap (in_front (cons c "")) (read_escaped s rest)
      ∙ in_front_front c s (read_word quoted rest))
]

-- The shell reads a quoted text back as that text, and goes on outside the quotes with what follows.
pub read_word-shell_quote :
    (s rest : String)
    → read_word bare (concat (shell_quote s) rest) ≡ in_front s (read_word bare rest)
unfolding read_word shell_quote
read_word-shell_quote s rest =
    ap (read_word bare) (
      append_assoc "'" (concat (escape_quotes s) "'") rest
      ∙ front "'" (concat (concat (escape_quotes s) "'") rest))
    ∙ ap (read_word quoted)
        (append_assoc (escape_quotes s) "'" rest ∙ ap (concat (escape_quotes s)) (front "'" rest))
    ∙ read_escaped s (cons "'" rest)
