-- ===== src/Wol/Modes.antt =====
-- src/wol.rs, `parse_mode` and `format_mode`.
use truenas_asustor_chassisd.Base.{
  ℕ, zero, suc, ◌<◌, ◌≡◌, refl, ap, ◌⊎◌, inl, inr, Bool, true, false, ◌&&◌, ◌==◌, arith, ==_iff,
}
use mathlib.Core.Bool.{and-eq-true_iff}
use truenas_asustor_chassisd.Wol.{
  ParsedMode, parsed, empty_mode, unsupported, parse_mode, format_mode,
}

abbrev is_parsed : ParsedMode → ℕ → Bool
is_parsed (parsed n) b = n == b
is_parsed empty_mode b = false
is_parsed (unsupported c) b = false

is_parsed_sound : (r : ParsedMode) (b : ℕ) → is_parsed r b ≡ true → r ≡ parsed b
is_parsed_sound (parsed n) b h = ap parsed ((==_iff n b).0 h)
is_parsed_sound empty_mode b h = cc
is_parsed_sound (unsupported c) b h = cc

-- Whether every mode below `n` comes back.
unfoldable all_return : ℕ → Bool
unfolding parse_mode format_mode
all_return zero = true
all_return (suc n) = is_parsed (parse_mode (format_mode n)) n && all_return n

all_return_below : (n b : ℕ) → all_return n ≡ true → b < n → parse_mode (format_mode b) ≡ parsed b
unfolding all_return
all_return_below zero b h below = absurd (omega arith)
all_return_below (suc n) b h below =
    let (here, rest) = (and-eq-true_iff (is_parsed (parse_mode (format_mode n)) n) _).0 h in
    elim split [
      | inl e ↦ rw e (is_parsed_sound (parse_mode (format_mode n)) n here)
      | inr under ↦ all_return_below n b rest under
    ]
  where
    split : (b ≡ n) ⊎ (b < n)
    split = ground arith

all_64 : all_return 64 ≡ true
unfolding all_return
all_64 = refl

-- Any set of the six flags that can be configured, printed and parsed again, is the same set.
pub parse_mode-format_mode : (bits : ℕ) → bits < 64 → parse_mode (format_mode bits) ≡ parsed bits
parse_mode-format_mode bits h = all_return_below 64 bits all_64 h
