-- ===== src/Base/Decimals.antt =====
-- A number printed in decimal is read back, and is a word.
use Prim.Native.Nat.{ℕ, zero, suc, ◌+◌, ◌-◌, ◌*◌, ◌/◌, ◌%◌, ◌≤◌, ◌<◌}
use mathlib.Core.Path.{◌≡◌, refl, sym, ap, ◌∙◌, subst}
use mathlib.Core.Bool.{Bool, true, false, ◌&&◌, and-eq-true_iff}
use mathlib.Core.Option.{Option, some, some-injective, none-ne-some}
use mathlib.Core.List.{[], ◌∷◌, ◌++◌}
use native.Mathlib.Omega.{arith}
use truenas_asustor_chassisd.Base.Tests.{ltb, leb, ◌==◌, if-cases}
use truenas_asustor_chassisd.Base.Chars.{Text, decimal_in, decimal}
use truenas_asustor_chassisd.Base.Words.{between, is_whitespace, parse_digits, parse_unsigned}
use truenas_asustor_chassisd.Base.Splitting.{all_dark}

abbrev pub is_digit : ℕ → Bool
is_digit c = between b'0' b'9' c

abbrev all_digits : Text → Bool
all_digits [] = true
all_digits (c ∷ t) = is_digit c && all_digits t

digit-dark : (c : ℕ) → is_digit c ≡ true → is_whitespace c ≡ false
digit-dark c h = ground arith

last_digit : (n : ℕ) → is_digit (b'0' + n % 10) ≡ true
last_digit n = ground arith

all_digits-append :
    (s t : Text) → all_digits s ≡ true → all_digits t ≡ true → all_digits (s ++ t) ≡ true
all_digits-append [] t hs ht = ht
all_digits-append (c ∷ s) t hs ht =
    let (a, b) = (and-eq-true_iff (is_digit c) _).0 hs in
    (and-eq-true_iff (is_digit c) _).1 (a, all_digits-append s t b ht)

parse_digits-append :
    (max acc c : ℕ) (s : Text) {m : ℕ}
    → parse_digits max acc s ≡ some m
    → parse_digits max acc (s ++ (c ∷ [])) ≡ parse_digits max m (c ∷ [])
parse_digits-append max acc c [] h = ap (λ x. parse_digits max x (c ∷ [])) (some-injective _ _ h)
parse_digits-append max acc c (d ∷ s) {m} h =
    if-cases (λ o. o ≡ some m → extended ≡ parse_digits max m (c ∷ []))
      (between b'0' b'9' d && leb n' max) (λ on e. rw on (parse_digits-append max n' c s e))
      (λ off e. absurd (none-ne-some _ e)) h
  where
    n' : ℕ
    n' = acc * 10 + (d - b'0')

    extended : Option ℕ
    extended = parse_digits max acc (d ∷ s ++ (c ∷ []))

-- The digits of a number, read from 0, are the number.
parse_digits-decimal_in :
    (max fuel n : ℕ)
    → n < fuel
    → n ≤ max
    → (parse_digits max 0 (decimal_in fuel n) ≡ some n) × (all_digits (decimal_in fuel n) ≡ true)
parse_digits-decimal_in max zero n h le = absurd (omega arith)
parse_digits-decimal_in max (suc fuel) n h le =
    if-cases (λ t. (parse_digits max 0 t ≡ some n) × (all_digits t ≡ true)) (ltb n 10)
      (λ small. (last 0 (ground arith), one_digit))
      (λ large.
        let (high, digits) =
          parse_digits-decimal_in max fuel (n / 10) (ground arith) (omega arith) in
        (
          parse_digits-append max 0 (b'0' + n % 10) (decimal_in fuel (n / 10)) high
              ∙ last (n / 10) refl,
          all_digits-append (decimal_in fuel (n / 10)) ((b'0' + n % 10) ∷ []) digits one_digit,
        ))
  where
    one_digit : all_digits ((b'0' + n % 10) ∷ []) ≡ true
    one_digit = rw (last_digit n) refl

    last : (high : ℕ) → high ≡ n / 10 → parse_digits max high ((b'0' + n % 10) ∷ []) ≡ some n
    last high e = ground arith

decimal_in-nonempty : (fuel n : ℕ) → n < fuel → (c : ℕ) × (t : Text) × (decimal_in fuel n ≡ c ∷ t)
decimal_in-nonempty zero n h = absurd (omega arith)
decimal_in-nonempty (suc fuel) n h =
    if-cases (λ x. (c : ℕ) × (t : Text) × (x ≡ c ∷ t)) (ltb n 10) (λ small. (_, _, refl))
      (λ large.
        let (c, t, e) = decimal_in-nonempty fuel (n / 10) (ground arith) in
        (c, t ++ ((b'0' + n % 10) ∷ []), ap (λ (x : Text). x ++ ((b'0' + n % 10) ∷ [])) e))

dark_digits : (t : Text) → all_digits t ≡ true → all_dark t ≡ true
dark_digits [] h = refl
dark_digits (c ∷ t) h =
    let (digit, rest) = (and-eq-true_iff (is_digit c) _).0 h in
    rw (digit-dark c digit, dark_digits t rest) refl

-- A number in decimal is a word that starts with a digit.
pub decimal_shape :
    (n : ℕ)
    → (c : ℕ) × (t : Text) × (decimal n ≡ c ∷ t) × (is_digit c ≡ true) × (all_dark (c ∷ t) ≡ true)
decimal_shape n =
    let digits = (parse_digits-decimal_in n (suc n) n (omega arith) (omega arith)).1 in
    let (c, t, e) = decimal_in-nonempty (suc n) n (omega arith) in
    let digits' = subst (λ x. all_digits x ≡ true) e digits in
    (c, t, e, ((and-eq-true_iff (is_digit c) _).0 digits').0, dark_digits (c ∷ t) digits')

-- A number in decimal is read back, up to the maximum.
pub parse_unsigned-decimal : (max n : ℕ) → n ≤ max → parse_unsigned max (decimal n) ≡ some n
parse_unsigned-decimal max n le =
    let (c, t, e, digit, dark) = decimal_shape n in
    let value = (parse_digits-decimal_in max (suc n) n (omega arith) le).0 in
    subst (λ x. parse_unsigned max x ≡ some n) (sym e)
      (if-cases (λ x. x ≡ some n) (c == b'+') (λ plus. absurd (ground arith))
        (λ plain. subst (λ x. parse_digits max 0 x ≡ some n) e value))
