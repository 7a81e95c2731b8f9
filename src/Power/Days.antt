-- ===== src/Power/Days.antt =====
-- src/power.rs, `parse_days`: the weekdays that the names of a rule make up.
use Prim.Native.Nat.{bit_or}
use mathlib.Core.List.{cons≢nil}
use mathlib.Core.Bool.{and-eq-true_iff, true≢false}
use mathlib.Core.Path.{subst, ap, ap₂}
use truenas_asustor_chassisd.Base.{
  ℕ, zero, suc, ◌*◌, ◌<◌, ◌≡◌, refl, sym, ◌⊎◌, inl, inr, Bool, true, ◌&&◌, Option, none, some, List,
  [], ◌∷◌, Text, arith, ltb, if-cases, ltb→lt, codes, one_of, to_ascii_lowercase, trim, ◌∙◌, false,
  not, ◌||◌, ◌==◌, ==_iff, Bool-cases, same_text,
}
use truenas_asustor_chassisd.Power.{has_day}
use truenas_asustor_chassisd.Power.Rules.{
  Parsed, good, bad, ◌>>=◌, day_names, day_bit, day_mask, days_from, parse_days, unknown_day,
}

-- One of the masks that a name of days stands for.
abbrev pub is_mask : ℕ → Bool
is_mask m = ltb 0 m && ltb m 128

-- The seven weekdays, from Sunday on, and the names that an entry can list them by.
abbrev pub named_days : List (Text × List ℕ)
named_days =
    (codes "daily", 0 ∷ 1 ∷ 2 ∷ 3 ∷ 4 ∷ 5 ∷ 6 ∷ [])
    ∷ (codes "everyday", 0 ∷ 1 ∷ 2 ∷ 3 ∷ 4 ∷ 5 ∷ 6 ∷ [])
    ∷ (codes "all", 0 ∷ 1 ∷ 2 ∷ 3 ∷ 4 ∷ 5 ∷ 6 ∷ [])
    ∷ (codes "weekdays", 1 ∷ 2 ∷ 3 ∷ 4 ∷ 5 ∷ [])
    ∷ (codes "weekends", 0 ∷ 6 ∷ [])
    ∷ (codes "sun", 0 ∷ [])
    ∷ (codes "sunday", 0 ∷ [])
    ∷ (codes "mon", 1 ∷ [])
    ∷ (codes "monday", 1 ∷ [])
    ∷ (codes "tue", 2 ∷ [])
    ∷ (codes "tuesday", 2 ∷ [])
    ∷ (codes "wed", 3 ∷ [])
    ∷ (codes "wednesday", 3 ∷ [])
    ∷ (codes "thu", 4 ∷ [])
    ∷ (codes "thursday", 4 ∷ [])
    ∷ (codes "fri", 5 ∷ [])
    ∷ (codes "friday", 5 ∷ [])
    ∷ (codes "sat", 6 ∷ [])
    ∷ (codes "saturday", 6 ∷ [])
    ∷ []

abbrev pub is_among : ℕ → List ℕ → Bool
is_among d [] = false
is_among d (e ∷ ds) = (d == e) || is_among d ds

abbrev pub stands_for : Text → ℕ → List (Text × List ℕ) → Bool
stands_for w d [] = false
stands_for w d ((name, ds) ∷ table) = (same_text w name && is_among d ds) || stands_for w d table

-- Whether a word of the entry, in whatever case and with spaces around it, names the weekday.
abbrev pub is_named : List Text → ℕ → Bool
is_named [] d = false
is_named (day ∷ days) d = stands_for (to_ascii_lowercase (trim day)) d named_days || is_named days d

abbrev agree : Bool → Bool → Bool
agree true b = b
agree false b = not b

-- The two agree on the first days.
abbrev alike : (ℕ → Bool) → (ℕ → Bool) → ℕ → Bool
alike p q zero = true
alike p q (suc d) = agree (p d) (q d) && alike p q d

agree_sound : (a b : Bool) → agree a b ≡ true → a ≡ b
agree_sound true true h = refl
agree_sound true false h = sym h
agree_sound false true h = h
agree_sound false false h = refl

alike_sound : (p q : ℕ → Bool) (n d : ℕ) → alike p q n ≡ true → d < n → p d ≡ q d
alike_sound p q zero d h below = absurd (omega arith)
alike_sound p q (suc n) d h below =
    let (here, rest) = (and-eq-true_iff (agree (p n) (q n)) _).0 h in
    elim split [
      | inl e ↦ subst (λ x. p x ≡ q x) (sym e) (agree_sound (p n) (q n) here)
      | inr under ↦ alike_sound p q n d rest under
    ]
  where
    split : (d ≡ n) ⊎ (d < n)
    split = ground arith

-- The join of two masks is a mask, and has the days of both.
abbrev is_join : ℕ → ℕ → Bool
is_join a b =
    is_mask (bit_or a b) && alike (has_day (bit_or a b)) (λ d. has_day a d || has_day b d) 7

-- Every pair below the bounds, tried.
abbrev all_or : ℕ → ℕ → Bool
all_or a zero = true
all_or a (suc b) = is_join a (suc b) && all_or a b

abbrev all_rows : ℕ → Bool
all_rows zero = true
all_rows (suc a) = all_or a 127 && all_rows a

all_tried : all_rows 128 ≡ true
all_tried = refl

tried_row : (a b n : ℕ) → all_or a n ≡ true → 0 < b → b < suc n → is_join a b ≡ true
tried_row a b zero h above below = absurd (omega arith)
tried_row a b (suc n) h above below =
    let (here, rest) = (and-eq-true_iff (is_join a (suc n)) _).0 h in
    elim split [
      | inl e ↦ subst (λ x. is_join a x ≡ true) (sym e) here
      | inr under ↦ tried_row a b n rest above under
    ]
  where
    split : (b ≡ suc n) ⊎ (b < suc n)
    split = ground arith

tried : (a b n : ℕ) → all_rows n ≡ true → a < n → is_mask b ≡ true → is_join a b ≡ true
tried a b zero h below mask = absurd (omega arith)
tried a b (suc n) h below mask =
    let (here, rest) = (and-eq-true_iff (all_or n 127) _).0 h in
    let (above, under) = (and-eq-true_iff (ltb 0 b) _).0 mask in
    elim split [
      | inl e ↦
          subst (λ x. is_join x b ≡ true) (sym e)
            (tried_row n b 127 here (ltb→lt 0 b above) (ltb→lt b 128 under))
      | inr lower ↦ tried a b n rest lower mask
    ]
  where
    split : (a ≡ n) ⊎ (a < n)
    split = ground arith

same_text_sound : (s t : Text) → same_text s t ≡ true → s ≡ t
same_text_sound [] [] h = refl
same_text_sound [] (b ∷ t) h = cc
same_text_sound (a ∷ s) [] h = cc
same_text_sound (a ∷ s) (b ∷ t) h =
    let (here, later) = (and-eq-true_iff (a == b) (same_text s t)).0 h in
    ap₂ (λ x r. x ∷ r) ((==_iff a b).0 here) (same_text_sound s t later)

abbrev AllOf : (Text → Type 0) → List Text → Type 0
AllOf P [] = Unit
AllOf P (s ∷ ss) = P s × AllOf P ss

one_of_sound :
    (P : Text → Type 0) (w : Text) (ss : List Text) → AllOf P ss → one_of w ss ≡ true → P w
one_of_sound P w [] h e = absurd (true≢false (sym e))
one_of_sound P w (s ∷ ss) h e = elim (Bool-cases (same_text w s)) [
  | inl same ↦ subst P (sym (same_text_sound w s same)) h.0
  | inr other ↦ one_of_sound P w ss h.1 (sym (ap (λ b. b || one_of w ss) other) ∙ e)
]

-- The mask has the days that the word stands for.
abbrev IsMaskOf : Option ℕ → Text → Type 0
IsMaskOf none w = Unit
IsMaskOf (some m) w =
    (is_mask m ≡ true) × (alike (has_day m) (λ d. stands_for w d named_days) 7 ≡ true)

-- The names of a day, with its bit, and of the days after it.
abbrev BitsFit : ℕ → List (Text × Text) → Type 0
BitsFit bit [] = Unit
BitsFit bit ((short, full) ∷ names) =
    AllOf (IsMaskOf (some bit)) (short ∷ full ∷ []) × BitsFit (bit * 2) names

day_bit-IsMaskOf :
    (w : Text) (bit : ℕ) (names : List (Text × Text))
    → BitsFit bit names
    → IsMaskOf (day_bit w bit names) w
day_bit-IsMaskOf w bit [] h = tt
day_bit-IsMaskOf w bit ((short, full) ∷ names) (here, rest) =
    if-cases (λ o. IsMaskOf o w) (one_of w (short ∷ full ∷ []))
      (λ e. one_of_sound (IsMaskOf (some bit)) w (short ∷ full ∷ []) here e)
      (λ e. day_bit-IsMaskOf w (bit * 2) names rest)

names_fit : BitsFit 1 day_names
names_fit = (
  ((refl, refl), ((refl, refl), tt)),
  (
    ((refl, refl), ((refl, refl), tt)),
    (
      ((refl, refl), ((refl, refl), tt)),
      (
        ((refl, refl), ((refl, refl), tt)),
        (
          ((refl, refl), ((refl, refl), tt)),
          (((refl, refl), ((refl, refl), tt)), (((refl, refl), ((refl, refl), tt)), tt)),
        ),
      ),
    ),
  ),
)

day_mask-IsMaskOf : (day : Text) → IsMaskOf (day_mask day) (to_ascii_lowercase (trim day))
unfolding day_mask
day_mask-IsMaskOf day =
    let w = to_ascii_lowercase (trim day) in
    let every = codes "daily" ∷ codes "everyday" ∷ codes "all" ∷ [] in
    if-cases (λ o. IsMaskOf o w) (one_of w every)
      (one_of_sound (IsMaskOf (some 127)) w every
        ((refl, refl), ((refl, refl), ((refl, refl), tt))))
      (λ e.
        if-cases (λ o. IsMaskOf o w) (one_of w (codes "weekdays" ∷ []))
          (one_of_sound (IsMaskOf (some 62)) w (codes "weekdays" ∷ []) ((refl, refl), tt))
          (λ e.
            if-cases (λ o. IsMaskOf o w) (one_of w (codes "weekends" ∷ []))
              (one_of_sound (IsMaskOf (some 65)) w (codes "weekends" ∷ []) ((refl, refl), tt))
              (λ e. day_bit-IsMaskOf w 1 day_names names_fit)))

-- An accepted result has the property.
abbrev pub Holds : {A : Type 0} → (A → Type 0) → Parsed A → Type 0
Holds P (good a) = P a
Holds P (bad e) = Unit

pub Holds-bind :
    {A B : Type 0} (P : A → Type 0) (Q : B → Type 0) (r : Parsed A) (f : A → Parsed B)
    → Holds P r
    → ((a : A) → P a → Holds Q (f a))
    → Holds Q (r >>= f)
Holds-bind P Q (good a) f h k = k a h
Holds-bind P Q (bad e) f h k = tt

pub Holds-map :
    {A : Type 0} (P Q : A → Type 0) (r : Parsed A) → ((a : A) → P a → Q a) → Holds P r → Holds Q r
Holds-map P Q (good a) f h = f a h
Holds-map P Q (bad e) f h = tt

-- The mask has the days that it is said to have, and no other bit.
abbrev pub HasDays : (ℕ → Bool) → ℕ → Type 0
HasDays p m = (is_mask m ≡ true) × ((d : ℕ) → d < 7 → has_day m d ≡ p d)

days_from-HasDays :
    (mask : ℕ) (days : List Text)
    → mask < 128
    → (days ≡ [] → is_mask mask ≡ true)
    → Holds (HasDays (λ d. has_day mask d || is_named days d)) (days_from mask days)
unfolding days_from
days_from-HasDays mask [] below h = (h refl, λ d under. or_false (has_day mask d))
  where
    or_false : (b : Bool) → b ≡ (b || false)
    or_false true = refl
    or_false false = refl
days_from-HasDays mask (day ∷ days) below h = step (day_mask day) (day_mask-IsMaskOf day) (λ m is.
    let (joined, both) =
      (and-eq-true_iff (is_mask (bit_or mask m)) _).0 (tried mask m 128 all_tried below is) in
    (both, days_from-HasDays (bit_or mask m) days (under (bit_or mask m) joined) (λ e. joined)))
  where
    w : Text
    w = to_ascii_lowercase (trim day)

    under : (n : ℕ) → is_mask n ≡ true → n < 128
    under n h = ltb→lt n 128 ((and-eq-true_iff (ltb 0 n) _).0 h).1

    gathered : (a b c j k : Bool) → j ≡ (a || b) → b ≡ c → (j || k) ≡ (a || (c || k))
    gathered true b c j k e f = ap (λ x. x || k) e
    gathered false b c j k e f = ap (λ x. x || k) (e ∙ f)

    step :
        (o : Option ℕ)
        → IsMaskOf o w
        → ((m : ℕ)
            → is_mask m ≡ true
            → (alike (has_day (bit_or mask m)) (λ d. has_day mask d || has_day m d) 7 ≡ true)
              × Holds
                  (HasDays (λ d. has_day (bit_or mask m) d || is_named days d))
                  (days_from (bit_or mask m) days))
        → Holds
            (HasDays (λ d. has_day mask d || (stands_for w d named_days || is_named days d)))
            (elim o [ none ↦ bad (unknown_day day) | some m ↦ days_from (bit_or mask m) days ])
    step none is k = tt
    step (some m) (is, means) k =
        let (both, rest) = k m is in
        Holds-map _ _ (days_from (bit_or mask m) days)
          (λ n (has : HasDays (λ d. has_day (bit_or mask m) d || is_named days d) n). (
            has.0,
            λ d below.
                has.1 d below
                ∙ gathered (has_day mask d) (has_day m d) (stands_for w d named_days)
                    (has_day (bit_or mask m) d) (is_named days d)
                    (alike_sound (has_day (bit_or mask m)) (λ d. has_day mask d || has_day m d) 7 d
                      both below)
                    (alike_sound (has_day m) (λ d. stands_for w d named_days) 7 d means below),
          ))
          rest

pub parse_days-HasDays : (days : List Text) → Holds (HasDays (is_named days)) (parse_days days)
unfolding parse_days
parse_days-HasDays [] = tt
parse_days-HasDays (day ∷ days) =
    Holds-map _ _ (days_from 0 (day ∷ days))
      (λ n (has : HasDays (λ d. has_day 0 d || is_named (day ∷ days) d) n). (
        has.0,
        λ d below.
            has.1 d below
            ∙ ap (λ b. b || is_named (day ∷ days) d)
                (alike_sound (has_day 0) (λ d. false) 7 d refl below),
      ))
      (days_from-HasDays 0 (day ∷ days) (omega arith) (λ e. absurd (cons≢nil e)))
