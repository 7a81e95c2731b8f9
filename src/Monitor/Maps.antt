-- ===== src/Monitor/Maps.antt =====
-- src/monitor.rs, the `HashMap`s: what is found after an insertion or a `retain`.
use mathlib.Core.Path.{subst, ap}
use mathlib.Core.Bool.{true≢false}
use truenas_asustor_chassisd.Base.{
  ◌≡◌, refl, sym, ◌∙◌, ◌↔◌, Bool, true, false, none, some, List, [], ◌∷◌, if-cases, inl, inr,
  Bool-cases,
}
use truenas_asustor_chassisd.Monitor.{lookup, insert, retain}

module _ {K : Type 0} (same : K → K → Bool)
    (same_iff : (a b : K) → (same a b ≡ true) ↔ (a ≡ b)) where
  other_key : (j k l : K) → same j k ≡ true → same k l ≡ false → same j l ≡ false
  other_key j k l on off = subst (λ x. same x l ≡ false) (sym ((same_iff j k).0 on)) off

module _ {K V : Type 0} (same : K → K → Bool)
    (same_iff : (a b : K) → (same a b ≡ true) ↔ (a ≡ b)) where
  pub lookup-insert_self :
      (k : K) (v : V) (m : List (K × V)) → lookup same k (insert same k v m) ≡ some v
  lookup-insert_self k v [] = rw ((same_iff k k).1 refl) refl
  lookup-insert_self k v ((j, u) ∷ m) = elim (Bool-cases (same j k)) [
    | inl on ↦ rw (on, on) refl
    | inr off ↦ rw (off, off) (lookup-insert_self k v m)
  ]

  pub lookup-insert_ne :
      (j k : K) (v : V) (m : List (K × V))
      → same j k ≡ false
      → lookup same k (insert same j v m) ≡ lookup same k m
  lookup-insert_ne j k v [] off = rw off refl
  lookup-insert_ne j k v ((i, u) ∷ m) off = elim (Bool-cases (same i j)) [
    | inl on ↦ rw (on, other_key same same_iff i j k on off) refl
    | inr other ↦
        if-cases (λ x. lookup same k x ≡ lookup same k ((i, u) ∷ m)) (same i j)
          (λ on. absurd (true≢false (sym on ∙ other))) (λ o. rw (lookup-insert_ne j k v m off) refl)
  ]

  pub lookup-retain_kept :
      (keep : K → Bool) (k : K) (m : List (K × V))
      → keep k ≡ true
      → lookup same k (retain same keep m) ≡ lookup same k m
  lookup-retain_kept keep k [] h = refl
  lookup-retain_kept keep k ((j, u) ∷ m) h =
      if-cases (λ x. lookup same k x ≡ lookup same k ((j, u) ∷ m)) (keep j)
        (λ on. rw (lookup-retain_kept keep k m h) refl)
        (λ off.
          if-cases (λ x. lookup same k (retain same keep m) ≡ x) (same j k)
            (λ is. absurd (true≢false (sym h ∙ ap keep (sym ((same_iff j k).0 is)) ∙ off)))
            (λ other. lookup-retain_kept keep k m h))

  pub lookup-retain_gone :
      (keep : K → Bool) (k : K) (m : List (K × V))
      → keep k ≡ false
      → lookup same k (retain same keep m) ≡ none
  lookup-retain_gone keep k [] h = refl
  lookup-retain_gone keep k ((j, u) ∷ m) h =
      if-cases (λ x. lookup same k x ≡ none) (keep j)
        (λ on.
          if-cases (λ x. x ≡ none) (same j k)
            (λ is. absurd (true≢false (sym on ∙ ap keep ((same_iff j k).0 is) ∙ h)))
            (λ other. lookup-retain_gone keep k m h))
        (λ off. lookup-retain_gone keep k m h)
