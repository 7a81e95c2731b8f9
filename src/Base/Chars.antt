-- ===== src/Base/Chars.antt =====
-- Texts as lists of character codes: what the panel counts, cuts and scrolls is characters.
use Prim.Native.Char.{code}
use Prim.Native.String.{String}
use Prim.Native.Nat.{ℕ, zero, suc, ◌+◌, ◌/◌, ◌%◌}
use mathlib.Core.List.{List, [], ◌∷◌, ◌++◌}
use truenas_asustor_chassisd.Base.Tests.{ltb, if◌then◌else◌}

abbrev pub Text : Type 0
Text = List ℕ

abbrev pub codes : String → Text
codes String.[] = []
codes (String.◌∷◌ c s) = code c ∷ codes s

-- A number in decimal: `{}`. The fuel is more than the number of digits.
abbrev pub decimal_in : ℕ → ℕ → Text
decimal_in zero n = []
decimal_in (suc fuel) n =
    let high = decimal_in fuel (n / 10) in
    let low = (b'0' + n % 10) ∷ [] in if ltb n 10 then low else high ++ low

abbrev pub decimal : ℕ → Text
decimal n = decimal_in (suc n) n
