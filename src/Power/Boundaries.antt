-- ===== src/Power/Boundaries.antt =====
-- src/power.rs, `minute_boundaries` and the two searches over it, `next_occurrence` and that of `poll`.
use mathlib.Core.Option.{none-ne-some, some-ne-none, some-injective}
use mathlib.Core.Path.{subst, ap}
use truenas_asustor_chassisd.Base.{
  ℕ, zero, suc, ◌+◌, ◌-◌, ◌*◌, ◌/◌, ◌%◌, ◌≤◌, ◌<◌, ◌≡◌, refl, sym, ◌∙◌, inl, inr, Bool, Option,
  none, some, List, ℤ, arith, Option-cases, leb→le, if-cases, leb,
}
use truenas_asustor_chassisd.Power.{
  Rule, LocalTime, first_boundary, steps_until, steps, due_at, best, find_due, last_due,
}

-- The boundaries are numbered: the k-th after `after`.
abbrev pub boundary : ℕ → ℕ → ℕ
boundary after k = first_boundary after + k * 60

-- They are the whole minutes after `after` and not after `until`.
pub boundary_in :
    (after until k : ℕ)
    → k < steps_until (first_boundary after) until
    → (boundary after k % 60 ≡ 0) × (after < boundary after k) × (boundary after k ≤ until)
boundary_in after until k h =
    if-cases (λ n. k < n → In) (leb (first_boundary after) until)
      (λ on below. inside (leb→le (first_boundary after) until on) below)
      (λ off below. absurd (omega arith)) h
  where
    In : Type 0
    In = (boundary after k % 60 ≡ 0) × (after < boundary after k) × (boundary after k ≤ until)

    inside : first_boundary after ≤ until → k < (until - first_boundary after) / 60 + 1 → In
    inside le below = (omega arith, omega arith, omega arith)

pub boundary_of :
    (after until m : ℕ)
    → m % 60 ≡ 0
    → after < m
    → m ≤ until
    → (k : ℕ) × (k < steps_until (first_boundary after) until) × (m ≡ boundary after k)
boundary_of after until m whole above below = (
  (m - first_boundary after) / 60,
  if-cases (λ n. (m - first_boundary after) / 60 < n) (leb (first_boundary after) until)
      (λ on. omega arith) (λ off. absurd (ground arith)),
  omega arith,
)

pub last_boundary :
    (after until k : ℕ)
    → k < steps_until (first_boundary after) until
    → until < boundary after k + 60
    → suc k ≡ steps_until (first_boundary after) until
last_boundary after until k =
    if-cases (λ n. k < n → until < boundary after k + 60 → suc k ≡ n)
      (leb (first_boundary after) until)
      (λ on below near. let le = leb→le (first_boundary after) until on in omega arith)
      (λ off below near. absurd (omega arith))

module _ (rules : List Rule) (local : ℤ → LocalTime) (filter : Rule → Bool) where
  abbrev pub look : ℕ → Option Rule
  look m = best (due_at rules m local filter)

  next_step : (b j : ℕ) → b + 60 + j * 60 ≡ b + suc j * 60
  next_step b j = omega arith

  none_later :
      (b k : ℕ)
      → look b ≡ none
      → ((j : ℕ) → j < k → look (b + 60 + j * 60) ≡ none)
      → (j : ℕ) → j < suc k
      → look (b + j * 60) ≡ none
  none_later b k here later zero below = subst (λ x. look x ≡ none) (omega arith) here
  none_later b k here later (suc j) below =
      subst (λ x. look x ≡ none) (next_step b j) (later j (omega arith))

  -- The search for the first: nothing is due at the boundaries before the one found.
  pub find_due_sound :
      (n b : ℕ) {m : ℕ} {r : Rule}
      → find_due rules local filter (steps n b) ≡ some (m, r)
      → (k : ℕ) × (k < n)
        × (m ≡ b + k * 60)
        × (look (b + k * 60) ≡ some r)
        × ((j : ℕ) → j < k → look (b + j * 60) ≡ none)
  unfolding find_due
  find_due_sound zero b = λ h. absurd (none-ne-some _ h)
  find_due_sound (suc n) b {m} {r} = elim (Option-cases (look b)) [
    | inl nothing ↦ rw (nothing, find_due) (λ h. past nothing (find_due_sound n (b + 60) h))
    | inr (q, found) ↦ rw (found, find_due) (λ h. at_once found (some-injective _ _ h))
  ]
    where
      Found : ℕ → ℕ → Type 0
      Found n b =
          (k : ℕ) × (k < n)
          × (m ≡ b + k * 60)
          × (look (b + k * 60) ≡ some r)
          × ((j : ℕ) → j < k → look (b + j * 60) ≡ none)

      past : look b ≡ none → Found n (b + 60) → Found (suc n) b
      past nothing (k, below, e, found, before) = (
        suc k,
        omega arith,
        e ∙ next_step b k,
        subst (λ x. look x ≡ some r) (next_step b k) found,
        none_later b k nothing before,
      )

      at_once : {q : Rule} → look b ≡ some q → ◌≡◌ {A = ℕ × Rule} (b, q) (m, r) → Found (suc n) b
      at_once {q} found e = (
        0,
        omega arith,
        sym (ap (λ (p : ℕ × Rule). p.0) e) ∙ omega arith,
        subst (λ x. look x ≡ some r) (omega arith) (found ∙ ap (λ (p : ℕ × Rule). some p.1) e),
        λ j below. absurd (omega arith),
      )

  pub find_due-none :
      (n b : ℕ)
      → find_due rules local filter (steps n b) ≡ none
      → (j : ℕ) → j < n
      → look (b + j * 60) ≡ none
  unfolding find_due
  find_due-none zero b = λ h j below. absurd (omega arith)
  find_due-none (suc n) b = elim (Option-cases (look b)) [
    | inl nothing ↦
        rw (nothing, find_due) (λ h. none_later b n nothing (find_due-none n (b + 60) h))
    | inr (q, found) ↦ rw (found, find_due) (λ h. absurd (some-ne-none _ h))
  ]

  -- The search for the last.
  pub last_due_sound :
      (n b : ℕ) {r : Rule}
      → last_due rules local filter (steps n b) ≡ some r
      → (k : ℕ) × (k < n) × (look (b + k * 60) ≡ some r)
  unfolding last_due
  last_due_sound zero b = λ h. absurd (none-ne-some _ h)
  last_due_sound (suc n) b {r} =
      elim (Option-cases (last_due rules local filter (steps n (b + 60)))) [
        | inl nothing ↦
            rw (nothing, last_due)
              (λ h. (0, omega arith, subst (λ x. look x ≡ some r) (omega arith) h))
        | inr (q, found) ↦ rw (found, last_due) (λ h. past (last_due_sound n (b + 60) (found ∙ h)))
      ]
    where
      past :
          ((k : ℕ) × (k < n) × (look (b + 60 + k * 60) ≡ some r))
          → (k : ℕ) × (k < suc n) × (look (b + k * 60) ≡ some r)
      past (k, below, found) =
          (suc k, omega arith, subst (λ x. look x ≡ some r) (next_step b k) found)

  -- With something due at one of the boundaries, the search finds something, and if that is the last of
  -- them then what is due there.
  pub last_due_complete :
      (n b k : ℕ) {q : Rule}
      → k < n
      → look (b + k * 60) ≡ some q
      → (r : Rule) × (last_due rules local filter (steps n b) ≡ some r) × (suc k ≡ n → r ≡ q)
  unfolding last_due
  last_due_complete zero b k below h = absurd (omega arith)
  last_due_complete (suc n) b zero {q} below h =
      elim (Option-cases (last_due rules local filter (steps n (b + 60)))) [
        | inl nothing ↦
            rw (nothing, last_due) (q, subst (λ x. look x ≡ some q) (omega arith) h, λ e. refl)
        | inr (r, found) ↦ rw (found, last_due) (r, refl, λ e. absurd (only n e found))
      ]
    where
      only :
          {r : Rule} (n : ℕ)
          → suc 0 ≡ suc n
          → last_due rules local filter (steps n (b + 60)) ≡ some r
          → ⊥
      only zero e found = none-ne-some _ found
      only (suc n) e found = omega arith
  last_due_complete (suc n) b (suc k) {q} below h =
      let (r, found, last) =
        last_due_complete n (b + 60) k (omega arith)
          (subst (λ x. look x ≡ some q) (sym (next_step b k)) h) in
      rw (found, last_due) (r, refl, λ e. last (omega arith))
