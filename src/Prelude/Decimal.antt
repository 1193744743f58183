-- ===== src/Prelude/Decimal.antt =====
-- The decimal numerals that `%d` of the package fmt prints.
use Prim.Native.Nat.{ℕ, zero, suc, ◌/◌, ◌%◌}
use Prim.Native.String.{String, ◌∷◌, ◌++◌, char_at}
use quorum_log.Prelude.Tests.{if◌then◌else◌}
use quorum_log.Prelude.Eq.{◌==◌, nat_eq}

abbrev digit : ℕ → String
digit n = char_at "0123456789" n ∷ ""

-- The fuel is at least the number of digits.
abbrev digits : ℕ → ℕ → String → String
digits zero n printed = printed
digits (suc fuel) n printed =
    let rest = digits fuel (n / 10) (digit (n % 10) ++ printed) in
    if n / 10 == 0 then digit n ++ printed else rest

unfoldable pub decimal : ℕ → String
decimal n = digits (suc n) n ""
