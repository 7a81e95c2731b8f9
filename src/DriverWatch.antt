-- ===== src/DriverWatch.antt =====
-- src/driver_watch.rs: noticing that the platform driver appeared, was reloaded or went away.
-- `Paths.snapshot` (a few `stat` calls) is the file system's: a snapshot is an argument of `poll`.
pub mod Settling
mod Tests
use truenas_asustor_chassisd.Base.{
  ℕ, ◌+◌, ◌*◌, Bool, true, false, not, ◌&&◌, ◌||◌, Option, none, some, List, [], ◌∷◌, ltb, ◌==◌,
  if◌then◌else◌,
}

-- 2 s.
abbrev pub check_interval : ℕ
check_interval = 2_000_000_000

-- Inode numbers; `none` where a path does not exist.
pub record Snapshot : Type 0 where
  pub core : List (Option ℕ)
  pub brightness : Option ℕ

abbrev pub is_some : Option ℕ → Bool
is_some none = false
is_some (some i) = true

abbrev pub all_some : List (Option ℕ) → Bool
all_some [] = true
all_some (i ∷ is) = is_some i && all_some is

abbrev pub present : Snapshot → Bool
present s = all_some s.core

-- The derived `PartialEq`.
abbrev pub same_inode : Option ℕ → Option ℕ → Bool
same_inode none none = true
same_inode (some i) (some j) = i == j
same_inode _ _ = false

abbrev pub same_core : List (Option ℕ) → List (Option ℕ) → Bool
same_core [] [] = true
same_core (i ∷ is) (j ∷ js) = same_inode i j && same_core is js
same_core _ _ = false

unfoldable pub same_snapshot : Snapshot → Snapshot → Bool
same_snapshot s t = same_core s.core t.core && same_inode s.brightness t.brightness

pub data Change : Type 0 where
  appeared reloaded brightness_led disappeared : Change

unfoldable pub reapply : Change → Bool
reapply disappeared = false
reapply _ = true

unfoldable pub platform_is_new : Change → Bool
platform_is_new appeared = true
platform_is_new reloaded = true
platform_is_new _ = false

-- The paths are left out: `poll` is given what they show.
pub record DriverWatch : Type 0 where
  pub applied : Snapshot
  pub seen : Option Snapshot
  pub next_check : ℕ

unfoldable pub new : Snapshot → ℕ → DriverWatch
new there now = record { applied = there; seen = some there; next_check = now + check_interval }

abbrev pub was_seen : Option Snapshot → Snapshot → Bool
was_seen none s = false
was_seen (some t) s = same_snapshot t s

-- The last two arms of the `match`: only the dimmer's LED may have changed.
abbrev pub dimmer_change : Snapshot → Snapshot → Option Change
dimmer_change before after =
    if is_some after.brightness && not (same_inode after.brightness before.brightness)
    then some brightness_led
    else none

-- The `match` on `(before.present(), after.present())`.
unfoldable pub classify : Snapshot → Snapshot → Option Change
classify before after =
    if not (present before) && present after
    then some appeared
    else if present before && not (present after)
    then some disappeared
    else if (present before && present after) && not (same_core before.core after.core)
    then some reloaded
    else dimmer_change before after

unfoldable pub observe : DriverWatch → Snapshot → DriverWatch × Option Change
unfolding classify
observe w s =
    if not (was_seen w.seen s)
    then (record w { seen = some s }, none)
    else if same_snapshot s w.applied
    then (w, none)
    else (record w { applied = s }, classify w.applied s)

unfoldable pub poll : DriverWatch → ℕ → Snapshot → DriverWatch × Option Change
unfolding observe
poll w now s =
    if ltb now w.next_check
    then (w, none)
    else observe (record w { next_check = now + check_interval }) s
