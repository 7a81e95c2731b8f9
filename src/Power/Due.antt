-- ===== src/Power/Due.antt =====
-- src/power.rs, `Rule::matches`, `due_at` and `best`: the rules that fall on a minute, and the one that runs.
use mathlib.Core.List.{Memᴰ}
use mathlib.Core.List.Memᴰ as Memᴰ
use mathlib.Core.Bool.{and-eq-true_iff, true≢false}
use mathlib.Core.Option.{some-injective}
use mathlib.Core.Path.{subst}
use truenas_asustor_chassisd.Base.{
  ℕ, ◌≡◌, refl, sym, ◌∙◌, ◌↔◌, ◌⊎◌, inl, inr, Bool, true, false, not, ◌&&◌, none, some, List, [],
  ◌∷◌, ℤ, pos, if-cases, Bool-cases, if◌then◌else◌, arith,
}
use truenas_asustor_chassisd.Power.{
  Rule, LocalTime, matches, is_shutdown, is_repeated_wall_time, matching, due_at, better, best_from,
  best,
}

-- The rule is one of the list, is of the kind asked for, and names the local minute at `m`, which is not
-- one that the clock relives.
abbrev pub IsDue : List Rule → (ℤ → LocalTime) → (Rule → Bool) → ℕ → Rule → Type 0
IsDue rules local filter m r =
    Memᴰ r rules
    × (filter r ≡ true)
    × (matches r (local (pos m)) ≡ true)
    × (is_repeated_wall_time m local ≡ false)

matching_sound :
    (f : Rule → Bool) (t : LocalTime) (rules : List Rule) {r : Rule}
    → Memᴰ r (matching f t rules)
    → Memᴰ r rules × (f r ≡ true) × (matches r t ≡ true)
unfolding matching
matching_sound f t [] d = elim d [ ]
matching_sound f t (q ∷ rules) {r} d =
    if-cases (λ (l : List Rule). Memᴰ r l → Found (q ∷ rules)) (f q && matches q t)
      (λ on d'.
        kept (λ e. matching_sound f t rules e) ((and-eq-true_iff (f q) _).0 on)
          (Memᴰ.cases_cons d'))
      (λ off d'. later (matching_sound f t rules d')) d
  where
    Found : List Rule → Type 0
    Found l = Memᴰ r l × (f r ≡ true) × (matches r t ≡ true)

    later : Found rules → Found (q ∷ rules)
    later (m, a, b) = (Memᴰ.tail m, a, b)

    kept :
        (Memᴰ r (matching f t rules) → Found rules)
        → (f q ≡ true) × (matches q t ≡ true)
        → (r ≡ q) ⊎ Memᴰ r (matching f t rules)
        → Found (q ∷ rules)
    kept rec (a, b) (inl e) =
        (Memᴰ.head e, subst (λ x. f x ≡ true) (sym e) a, subst (λ x. matches x t ≡ true) (sym e) b)
    kept rec both (inr d') = later (rec d')

matching_complete :
    (f : Rule → Bool) (t : LocalTime) (rules : List Rule) {r : Rule}
    → Memᴰ r rules
    → f r ≡ true
    → matches r t ≡ true
    → Memᴰ r (matching f t rules)
unfolding matching
matching_complete f t [] d a b = elim d [ ]
matching_complete f t (q ∷ rules) {r} (Memᴰ.head e) a b =
    subst (λ x. Memᴰ r (if x then q ∷ matching f t rules else matching f t rules))
      (sym (
        (and-eq-true_iff (f q) _).1
          (subst (λ x. f x ≡ true) e a, subst (λ x. matches x t ≡ true) e b)))
      (Memᴰ.head e)
matching_complete f t (q ∷ rules) {r} (Memᴰ.tail d) a b =
    let d' = matching_complete f t rules d a b in
    if-cases (λ (l : List Rule). Memᴰ r l) (f q && matches q t) (λ on. Memᴰ.tail d') (λ off. d')

-- The rules due at a minute are those of the list that are of the kind and name it.
pub due_at_iff :
    (rules : List Rule) (local : ℤ → LocalTime) (filter : Rule → Bool) (m : ℕ) (r : Rule)
    → Memᴰ r (due_at rules m local filter) ↔ IsDue rules local filter m r
unfolding due_at
due_at_iff rules local filter m r = elim (Bool-cases (is_repeated_wall_time m local)) [
  | inl again ↦ rw (again, due_at) ((λ d. elim d [ ]), (λ (a, b, c, e). absurd (true≢false e)))
  | inr first ↦
      rw (first, due_at)
        (
          λ d. let (a, b, c) = matching_sound filter (local (pos m)) rules d in (a, b, c, refl),
          λ (a, b, c, e). matching_complete filter (local (pos m)) rules a b c,
        )
]

better_either : (a b : Rule) → (better a b ≡ a) ⊎ (better a b ≡ b)
unfolding better
better_either a b =
    if-cases (λ (x : Rule). (x ≡ a) ⊎ (x ≡ b)) (is_shutdown a && not (is_shutdown b))
      (λ on. inl refl) (λ off. inr refl)

best_from_sound : (a : Rule) (rs : List Rule) → Memᴰ (best_from a rs) (a ∷ rs)
unfolding best_from
best_from_sound a [] = Memᴰ.head refl
best_from_sound a (b ∷ rs) = elim (best_from_sound (better a b) rs) [
  | Memᴰ.head e ↦ elim (better_either a b) [
    | inl e' ↦ Memᴰ.head (e ∙ e')
    | inr e' ↦ Memᴰ.tail (Memᴰ.head (e ∙ e'))
  ]
  | Memᴰ.tail d ↦ Memᴰ.tail (Memᴰ.tail d)
]

pub best_sound : (rs : List Rule) {r : Rule} → best rs ≡ some r → Memᴰ r rs
unfolding best
best_sound [] h = cc
best_sound (a ∷ rs) h = subst (λ x. Memᴰ x (a ∷ rs)) (some-injective _ _ h) (best_from_sound a rs)

pub best_complete : (rs : List Rule) {r : Rule} → best rs ≡ none → Memᴰ r rs → ⊥
unfolding best
best_complete [] h d = elim d [ ]
best_complete (a ∷ rs) h d = cc

better_shutdown_left : (a b : Rule) → is_shutdown a ≡ true → is_shutdown (better a b) ≡ true
unfolding better
better_shutdown_left a b h = ground arith

better_shutdown_right : (a b : Rule) → is_shutdown b ≡ true → is_shutdown (better a b) ≡ true
unfolding better
better_shutdown_right a b h = ground arith

best_from_shutdown :
    (a : Rule) (rs : List Rule) {r : Rule}
    → Memᴰ r (a ∷ rs)
    → is_shutdown r ≡ true
    → is_shutdown (best_from a rs) ≡ true
unfolding best_from
best_from_shutdown a [] (Memᴰ.head e) h = subst (λ x. is_shutdown x ≡ true) e h
best_from_shutdown a [] (Memᴰ.tail d) h = elim d [ ]
best_from_shutdown a (b ∷ rs) (Memᴰ.head e) h =
    best_from_shutdown (better a b) rs (Memᴰ.head refl)
      (better_shutdown_left a b (subst (λ x. is_shutdown x ≡ true) e h))
best_from_shutdown a (b ∷ rs) (Memᴰ.tail (Memᴰ.head e)) h =
    best_from_shutdown (better a b) rs (Memᴰ.head refl)
      (better_shutdown_right a b (subst (λ x. is_shutdown x ≡ true) e h))
best_from_shutdown a (b ∷ rs) (Memᴰ.tail (Memᴰ.tail d)) h =
    best_from_shutdown (better a b) rs (Memᴰ.tail d) h

-- A shutdown beats a restart.
pub best_shutdown :
    (rs : List Rule) {r b : Rule}
    → Memᴰ r rs
    → is_shutdown r ≡ true
    → best rs ≡ some b
    → is_shutdown b ≡ true
unfolding best
best_shutdown [] d h e = elim d [ ]
best_shutdown (a ∷ rs) d h e =
    subst (λ x. is_shutdown x ≡ true) (some-injective _ _ e) (best_from_shutdown a rs d h)
