-- ===== src/Storage/Lines.antt =====
-- bufio.Scanner with ScanLines, as internal/storage/storage.go uses it.
use quorum_log.Prelude.{
  ℕ, ◌≤◌, ◌<◌, ◌≡◌, Bool, true, false, List, [], ◌∷◌, ◌++◌, length, leb, All, All-append,
  if◌then◌else◌, ◌==◌, nat_eq, arith, refl,
}

abbrev pub Line : Type 0
Line = List ℕ

abbrev push : ℕ → List Line → List Line
push c [] = (c ∷ []) ∷ []
push c (l ∷ lines) = (c ∷ l) ∷ lines

-- The lines of a file; what stands behind the last newline is a line unless it is empty.
unfoldable pub scan_lines : List ℕ → List Line
scan_lines [] = []
scan_lines (c ∷ cs) = let lines = scan_lines cs in if c == 10 then [] ∷ lines else push c lines

-- A carriage return at the end of a line is dropped.
unfoldable pub drop_cr : Line → Line
drop_cr [] = []
drop_cr (c ∷ []) = if c == 13 then [] else c ∷ []
drop_cr (c ∷ d ∷ cs) = c ∷ drop_cr (d ∷ cs)

-- The scanner stops with an error at a line that does not fit its buffer.
unfoldable pub within : ℕ → List Line → List Line × Bool
within limit [] = ([], false)
within limit (l ∷ lines) =
    let (kept, too_long) = within limit lines in
    if leb limit (length l) then ([], true) else (l ∷ kept, too_long)

abbrev pub IsPrintable : Line → Type 0
IsPrintable = All (λ c. 32 ≤ c)

pub scan_lines_line :
    (l rest : List ℕ) → IsPrintable l → scan_lines (l ++ (10 ∷ rest)) ≡ l ∷ scan_lines rest
unfolding scan_lines
scan_lines_line [] rest h = refl
scan_lines_line (c ∷ l) rest h = rw (scan_lines_line l rest h.1) (ground (arith, h.0))

pub scan_lines_last : (c : ℕ) (l : List ℕ) → IsPrintable (c ∷ l) → scan_lines (c ∷ l) ≡ (c ∷ l) ∷ []
unfolding scan_lines
scan_lines_last c [] h = ground (arith, h.0)
scan_lines_last c (d ∷ l) h = rw (scan_lines_last d l h.1) (ground (arith, h.0))

pub drop_cr_printable : (l : Line) → IsPrintable l → drop_cr l ≡ l
unfolding drop_cr
drop_cr_printable [] h = refl
drop_cr_printable (c ∷ []) h = ground (arith, h.0)
drop_cr_printable (c ∷ d ∷ l) h = rw (drop_cr_printable (d ∷ l) h.1)

pub within_cons :
    (limit : ℕ) (l : Line) (lines : List Line)
    → length l < limit
    → within limit (l ∷ lines) ≡ (l ∷ (within limit lines).0, (within limit lines).1)
unfolding within
within_cons limit l lines h = ground arith

pub IsPrintable-append : (p q : Line) → IsPrintable p → IsPrintable q → IsPrintable (p ++ q)
IsPrintable-append p q hp hq = All-append (λ c. 32 ≤ c) p q hp hq

pub IsPrintable-prefix : (p q : Line) → IsPrintable (p ++ q) → IsPrintable p
IsPrintable-prefix [] q h = tt
IsPrintable-prefix (c ∷ p) q h = (h.0, IsPrintable-prefix p q h.1)
