-- ===== src/Alarm/Severity.antt =====
-- The alarm that decides the LED and the panel.
use truenas_asustor_chassisd.Base.{
  ℕ, ◌≤◌, ◌<◌, ◌≡◌, refl, ap, ◌⊎◌, inl, inr, Option, none, some, List, [], ◌∷◌, ◌++◌, leb, arith,
  Bool-cases,
}
use truenas_asustor_chassisd.Alarm.{Alarm, severity, most_critical_from, most_critical}

abbrev pub AllBelow : ℕ → List Alarm → Type 0
AllBelow n [] = Unit
AllBelow n (a ∷ alarms) = (severity a.pattern < n) × AllBelow n alarms

abbrev pub AllUpTo : ℕ → List Alarm → Type 0
AllUpTo n [] = Unit
AllUpTo n (a ∷ alarms) = (severity a.pattern ≤ n) × AllUpTo n alarms

-- `a` is the first of the most severe alarms: those before it are less severe, those after it are no
-- more severe.
abbrev pub FirstWorst : List Alarm → Alarm → Type 0
FirstWorst alarms a =
    (before : List Alarm) × (after : List Alarm) × (alarms ≡ before ++ a ∷ after)
    × AllBelow (severity a.pattern) before
    × AllUpTo (severity a.pattern) after

abbrev pub IsMostCritical : List Alarm → Option Alarm → Type 0
IsMostCritical alarms none = alarms ≡ []
IsMostCritical alarms (some a) = FirstWorst alarms a

AllBelow-trans : (m n : ℕ) (alarms : List Alarm) → m ≤ n → AllBelow m alarms → AllBelow n alarms
AllBelow-trans m n [] h all = tt
AllBelow-trans m n (a ∷ alarms) h (here, all) = (omega arith, AllBelow-trans m n alarms h all)

-- The best so far is a first worst of a list in front; either it stays, or a later one replaces it.
from-FirstWorst :
    (b : Alarm) (alarms : List Alarm)
    → ((most_critical_from (some b) alarms ≡ some b) × AllUpTo (severity b.pattern) alarms)
      ⊎ ((a : Alarm) × (most_critical_from (some b) alarms ≡ some a)
          × (severity b.pattern < severity a.pattern)
          × FirstWorst alarms a)
from-FirstWorst b [] = inl (refl, tt)
from-FirstWorst b (a ∷ alarms) = elim (Bool-cases (leb (severity a.pattern) (severity b.pattern))) [
  | inl keeps ↦ rw keeps (elim (from-FirstWorst b alarms) [
    | inl (same, all) ↦ inl (same, (ground arith, all))
    | inr (w, got, above, (before, after, split, low, high)) ↦
        inr (w, got, above, (a ∷ before, after, ap (λ l. a ∷ l) split, (ground arith, low), high))
  ])
  | inr moves ↦ rw moves (elim (from-FirstWorst a alarms) [
    | inl (same, all) ↦ inr (a, same, ground arith, ([], alarms, refl, tt, all))
    | inr (w, got, above, (before, after, split, low, high)) ↦
        inr (w, got, ground arith, (a ∷ before, after, ap (λ l. a ∷ l) split, (above, low), high))
  ])
]

-- No alarm is picked only if there is none; else it is one of the most severe by LED pattern, and the
-- first of those.
pub most_critical-IsMostCritical :
    (alarms : List Alarm) → IsMostCritical alarms (most_critical alarms)
unfolding most_critical
most_critical-IsMostCritical [] = refl
most_critical-IsMostCritical (a ∷ alarms) = elim (from-FirstWorst a alarms) [
  | inl (same, all) ↦ rw same ([], alarms, refl, tt, all)
  | inr (w, got, above, (before, after, split, low, high)) ↦
      rw got (a ∷ before, after, ap (λ l. a ∷ l) split, (above, low), high)
]
