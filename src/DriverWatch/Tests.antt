-- ===== src/DriverWatch/Tests.antt =====
-- The driver watch at concrete snapshots.
use truenas_asustor_chassisd.Base.{◌≡◌, refl, none, some, [], ◌∷◌}
use truenas_asustor_chassisd.DriverWatch.{
  Snapshot, present, appeared, reloaded, disappeared, DriverWatch, new, same_snapshot, observe,
}
use truenas_asustor_chassisd.DriverWatch.Settling.{watch, Follows, watch-Follows}

abbrev absent : Snapshot
absent = record { core = none ∷ none ∷ none ∷ []; brightness = none }

abbrev half : Snapshot
half = record { core = some 10 ∷ none ∷ none ∷ []; brightness = none }

abbrev loaded : Snapshot
loaded = record { core = some 10 ∷ some 11 ∷ some 12 ∷ []; brightness = some 13 }

abbrev again : Snapshot
again = record { core = some 20 ∷ some 21 ∷ some 22 ∷ []; brightness = some 23 }

abbrev booted : DriverWatch
booted = new absent 0

-- Loading in steps is reported once; a reload quicker than a check is still seen; so is going away.
history :
    (watch booted
      (absent ∷ half ∷ loaded ∷ loaded ∷ loaded ∷ again ∷ again ∷ absent ∷ absent ∷ [])).1
    ≡ appeared ∷ reloaded ∷ disappeared ∷ []
unfolding watch observe new same_snapshot
history = refl

watch-Follows_example :
    Follows
      (present booted.applied)
      (watch booted (half ∷ loaded ∷ loaded ∷ [])).1
      (present (watch booted (half ∷ loaded ∷ loaded ∷ [])).0.applied)
watch-Follows_example = watch-Follows booted (half ∷ loaded ∷ loaded ∷ [])
