-- ===== src/CpuPower/Guarding.antt =====
-- The guard over a history of samples: when the limits drop and when they come back.
use truenas_asustor_chassisd.Base.{
  ℕ, ◌-◌, ◌≤◌, ◌≡◌, ◌≢◌, ◌⊎◌, true, Option, none, some, List, [], ◌∷◌, arith,
}
use Prim.Native.String.{String}
use truenas_asustor_chassisd.Float.{F32}
use truenas_asustor_chassisd.CpuPower.{
  TemperatureConfig, Reading, configured, Change, rearmed, Guard, new_guard, guard_mode,
  get_or_insert, critical, cool, observe,
}

module _ (f : F32) (temps : TemperatureConfig (f.Value)) where
  -- The samples so far, the latest first, each with its time.
  abbrev pub History : Type 0
  History = List (ℕ × Option (List (Reading (f.Value))))

  unfoldable pub guard_after : ℕ → History → Guard
  guard_after rearm [] = new_guard rearm
  guard_after rearm ((now, r) ∷ h) = (observe f (guard_after rearm h) now r temps).0

  -- Every sample from the time `t` on was fresh, had no critical sensor, and had every sensor below
  -- its warning threshold; the first of them was taken at `t`.
  abbrev pub CoolFrom : ℕ → History → Type 0
  CoolFrom t [] = ⊥
  CoolFrom t ((now, r) ∷ h) =
      (critical f temps r ≡ none) × (cool f temps r ≡ true) × ((now ≡ t) ⊎ CoolFrom t h)

  -- The guard remembers a time only while it is tripped, and then rightly.
  abbrev GuardOk : Guard → History → Type 0
  GuardOk g h =
      (g.cool_since ≡ none)
      ⊎ ((t : ℕ) × (g.cool_since ≡ some t) × (g.is_tripped ≡ true) × CoolFrom t h)

  -- What one observation does, case by case.
  abbrev Observed :
      Guard → ℕ → Option (List (Reading (f.Value))) → History → Guard × Option Change → Type 0
  Observed g now r h (g', change) =
      GuardOk g' ((now, r) ∷ h)
      × (g'.rearm ≡ g.rearm)
      × ((change ≢ some rearmed) ⊎ ((t : ℕ) × CoolFrom t ((now, r) ∷ h) × (g.rearm ≤ now - t)))

  -- The configured limits are wanted after a sample only if it is fresh and no sensor in it is critical;
  -- and then only if they were wanted before it, or if every sensor is below its warning threshold and
  -- the hold time has passed since the time that the guard remembers, or this sample's if it has none.
  pub guard_mode-configured :
      (g : Guard) (now : ℕ) (r : Option (List (Reading (f.Value))))
      → guard_mode (observe f g now r temps).0 ≡ configured
      → (critical f temps r ≡ none)
        × ((guard_mode g ≡ configured)
            ⊎ ((cool f temps r ≡ true) × (g.rearm ≤ now - get_or_insert g.cool_since now)))
  unfolding observe guard_mode
  guard_mode-configured g now r e = ground arith
