-- ===== src/Base/Words.antt =====
-- The text functions of Rust's standard library that the parsers use, on texts: trimming, splitting into
-- words, ASCII case, prefixes, and numbers in decimal.
use Prim.Native.Nat.{ℕ, ◌+◌, ◌-◌, ◌*◌}
use mathlib.Core.Bool.{Bool, true, false, ◌&&◌, ◌||◌}
use mathlib.Core.Option.{Option, none, some}
use mathlib.Core.List.{List, [], ◌∷◌, map}
use truenas_asustor_chassisd.Base.Tests.{leb, ◌==◌, if◌then◌else◌}
use truenas_asustor_chassisd.Base.Chars.{Text}

abbrev pub between : ℕ → ℕ → ℕ → Bool
between low high c = leb low c && leb c high

-- The characters with the Unicode property White_Space.
abbrev pub is_whitespace : ℕ → Bool
is_whitespace c =
    between 9 13 c
    || ((c == 32)
        || ((c == 133)
            || ((c == 160)
                || ((c == 5760)
                    || (between 8192 8202 c
                        || (between 8232 8233 c
                            || ((c == 8239) || ((c == 8287) || (c == 12288)))))))))

abbrev pub trim_start : Text → Text
trim_start [] = []
trim_start (c ∷ t) = if is_whitespace c then trim_start t else c ∷ t

abbrev pub put_before : ℕ → Text → Text
put_before c [] = if is_whitespace c then [] else c ∷ []
put_before c (d ∷ t) = c ∷ d ∷ t

abbrev pub trim_end : Text → Text
trim_end [] = []
trim_end (c ∷ t) = put_before c (trim_end t)

abbrev pub trim : Text → Text
trim t = trim_end (trim_start t)

abbrev pub put_word : Text → List Text → List Text
put_word [] ws = ws
put_word (c ∷ w) ws = (c ∷ w) ∷ ws

abbrev pub add_char : ℕ → Text × List Text → Text × List Text
add_char c (w, ws) = if is_whitespace c then ([], put_word w ws) else (c ∷ w, ws)

-- The word that the text starts with, empty if it starts with a space, and those after it.
abbrev pub words_at : Text → Text × List Text
words_at [] = ([], [])
words_at (c ∷ t) = add_char c (words_at t)

abbrev pub split_whitespace : Text → List Text
split_whitespace t = let (w, ws) = words_at t in put_word w ws

abbrev pub lower_char : ℕ → ℕ
lower_char c = if between b'A' b'Z' c then c + 32 else c

abbrev pub upper_char : ℕ → ℕ
upper_char c = if between b'a' b'z' c then c - 32 else c

abbrev pub to_ascii_lowercase : Text → Text
to_ascii_lowercase t = map lower_char t

abbrev pub to_ascii_uppercase : Text → Text
to_ascii_uppercase t = map upper_char t

abbrev pub same_text : Text → Text → Bool
same_text [] [] = true
same_text (c ∷ s) (d ∷ t) = (c == d) && same_text s t
same_text _ _ = false

abbrev pub eq_ignore_ascii_case : Text → Text → Bool
eq_ignore_ascii_case s t = same_text (to_ascii_lowercase s) (to_ascii_lowercase t)

abbrev pub one_of : Text → List Text → Bool
one_of t [] = false
one_of t (s ∷ ss) = same_text t s || one_of t ss

abbrev pub strip_prefix : Text → Text → Option Text
strip_prefix [] t = some t
strip_prefix (c ∷ p) [] = none
strip_prefix (c ∷ p) (d ∷ t) = if c == d then strip_prefix p t else none

-- Split at the first `sep`, which is left out.
abbrev pub split_once : ℕ → Text → Option (Text × Text)
split_once sep [] = none
split_once sep (c ∷ t) =
    let rest = split_once sep t in
    if c == sep then some ([], t) else elim rest [ none ↦ none | some p ↦ some (c ∷ p.0, p.1) ]

-- The digits left to read after `n`, none over `max`.
abbrev pub parse_digits : ℕ → ℕ → Text → Option ℕ
parse_digits max n [] = some n
parse_digits max n (c ∷ t) =
    let n' = n * 10 + (c - b'0') in
    let rest = parse_digits max n' t in if between b'0' b'9' c && leb n' max then rest else none

abbrev pub parse_nonempty : ℕ → Text → Option ℕ
parse_nonempty max [] = none
parse_nonempty max (c ∷ t) = parse_digits max 0 (c ∷ t)

-- An unsigned number of at most `max`, with or without a plus sign.
abbrev pub parse_unsigned : ℕ → Text → Option ℕ
parse_unsigned max [] = none
parse_unsigned max (c ∷ t) = if c == b'+' then parse_nonempty max t else parse_nonempty max (c ∷ t)
