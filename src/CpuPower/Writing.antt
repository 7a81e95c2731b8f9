-- ===== src/CpuPower/Writing.antt =====
-- What reaches the zone's files, and in which order.
use truenas_asustor_chassisd.Base.{
  ℕ, ◌+◌, ◌*◌, ◌≤◌, ◌≡◌, ◌≢◌, ◌↔◌, refl, sym, ap, ◌⊎◌, inl, inr, Bool, true, false, Option, none,
  some, List, [], ◌∷◌, leb, arith, Bool-cases, Option-cases,
}
use Prim.Native.String.{String}
use mathlib.Core.Path.{subst}
use truenas_asustor_chassisd.CpuPower.{
  Limits, limits_match, ZoneFile, pl1_file, pl2_file, tau_file, write_plan, ZoneAnswers, Written,
  written, writes_of, error_of, then_written, write_all, zone_write, Mode, Guard, guard_mode,
  Controller, limits, verified_lately, as_expected,
}

-- The files after a sequence of writes.
unfoldable pub write_to : Limits → ZoneFile × ℕ → Limits
write_to l (pl1_file, v) = record l { pl1_uw = v }
write_to l (pl2_file, v) = record l { pl2_uw = v }
write_to l (tau_file, v) = record l { tau_us = v }

unfoldable pub after_writes : Limits → List (ZoneFile × ℕ) → Limits
after_writes l [] = l
after_writes l (w ∷ ws) = after_writes (write_to l w) ws

-- PL1 is at most PL2 at the start and after every write.
abbrev pub StaysOrdered : Limits → List (ZoneFile × ℕ) → Type 0
StaysOrdered l [] = l.pl1_uw ≤ l.pl2_uw
StaysOrdered l (w ∷ ws) = (l.pl1_uw ≤ l.pl2_uw) × StaysOrdered (write_to l w) ws

write_all-StaysOrdered :
    (problem : String) (accepts : List Bool) (plan : List (ZoneFile × ℕ)) (l : Limits)
    → StaysOrdered l plan
    → StaysOrdered l (writes_of (write_all problem accepts plan))
unfolding write_all
write_all-StaysOrdered problem accepts [] l h = h
write_all-StaysOrdered problem [] (w ∷ plan) l h = h.0
write_all-StaysOrdered problem (false ∷ accepts) (w ∷ plan) l h = h.0
write_all-StaysOrdered problem (true ∷ accepts) (w ∷ plan) l h =
    let rest = write_all-StaysOrdered problem accepts plan (write_to l w) h.1 in
    go (write_all problem accepts plan) rest
  where
    go :
        (r : Written)
        → StaysOrdered (write_to l w) (writes_of r)
        → StaysOrdered l (writes_of (then_written w r))
    go (written ws e) k = (h.0, k)

write_plan-StaysOrdered :
    (l new : Limits)
    → l.pl1_uw ≤ l.pl2_uw
    → new.pl1_uw ≤ new.pl2_uw
    → StaysOrdered l (write_plan l.pl2_uw new)
unfolding write_plan write_to
write_plan-StaysOrdered l new h k = elim (Bool-cases (leb l.pl2_uw new.pl2_uw)) [
  | inl up ↦ rw up (h, (ground arith, (k, k)))
  | inr down ↦ rw down (h, (ground arith, (k, k)))
]

-- Wherever a write of the limits stops, and whichever way they change: PL1 never exceeds PL2 in the
-- zone's files, if it did not before and the new limits are in order.
pub zone_write-StaysOrdered :
    (z : ZoneAnswers) (l new : Limits)
    → z.cur_pl2 ≡ some l.pl2_uw
    → l.pl1_uw ≤ l.pl2_uw
    → new.pl1_uw ≤ new.pl2_uw
    → StaysOrdered l (writes_of (zone_write z new))
unfolding zone_write
zone_write-StaysOrdered z l new e h k =
    rw (e, zone_write)
      (write_all-StaysOrdered z.io_problem z.accepts (write_plan l.pl2_uw new) l
        (write_plan-StaysOrdered l new h k))

write_all-all :
    (problem : String) (accepts : List Bool) (plan : List (ZoneFile × ℕ))
    → error_of (write_all problem accepts plan) ≡ none
    → writes_of (write_all problem accepts plan) ≡ plan
unfolding write_all
write_all-all problem accepts [] h = refl
write_all-all problem [] (w ∷ plan) h = cc
write_all-all problem (false ∷ accepts) (w ∷ plan) h = cc
write_all-all problem (true ∷ accepts) (w ∷ plan) h =
    go (write_all problem accepts plan) h (write_all-all problem accepts plan)
  where
    go :
        (r : Written)
        → error_of (then_written w r) ≡ none
        → (error_of r ≡ none → writes_of r ≡ plan)
        → writes_of (then_written w r) ≡ w ∷ plan
    go (written ws e) k ih = ap (λ p. w ∷ p) (ih k)

write_plan-writes_all : (cur : ℕ) (l new : Limits) → after_writes l (write_plan cur new) ≡ new
unfolding write_plan after_writes write_to
write_plan-writes_all cur l new = elim (Bool-cases (leb cur new.pl2_uw)) [
  | inl up ↦ rw up refl
  | inr down ↦ rw down refl
]

-- A write of the limits that reports no error leaves exactly those limits in the files.
pub zone_write-after_writes :
    (z : ZoneAnswers) (l new : Limits)
    → error_of (zone_write z new) ≡ none
    → after_writes l (writes_of (zone_write z new)) ≡ new
unfolding zone_write
zone_write-after_writes z l new h = elim (Option-cases z.cur_pl2) [
  | inl unread ↦ absurd (unread_fails unread h)
  | inr (cur, read) ↦
      let done : error_of (write_all z.io_problem z.accepts (write_plan cur new)) ≡ none =
        subst (λ o. error_of (from o) ≡ none) read h in
      subst (λ o. after_writes l (writes_of (from o)) ≡ new) (sym read)
        (rw (write_all-all z.io_problem z.accepts (write_plan cur new) done)
          (write_plan-writes_all cur l new))
]
  where
    from : Option ℕ → Written
    from o = elim o [
      | none ↦ written [] (some z.io_problem)
      | some cur ↦ write_all z.io_problem z.accepts (write_plan cur new)
    ]

    unread_fails : z.cur_pl2 ≡ none → error_of (from z.cur_pl2) ≡ none → ⊥
    unread_fails e k = let m = subst (λ o. error_of (from o) ≡ none) e k in cc

-- What setting the limits `l` for the mode `want` comes to, by what the zone answers: every write went
-- through, whatever the files held, and the mode counts as applied with no problem left; or it stopped,
-- the reason is noted, and the mode does not count as applied, so that the next tick tries again.
pub data Setting (want : Mode) (l : Limits) (z : ZoneAnswers) (c : Controller)
    : List (ZoneFile × ℕ) → Type 0 where
  went_through :
      {ws : List (ZoneFile × ℕ)}
      → z.layout_problem ≡ none
      → ((files : Limits) → after_writes files ws ≡ l)
      → c.applied ≡ some want
      → c.problem ≡ none
      → Setting want l z c ws
  refused :
      {e : String}
      → z.layout_problem ≡ some e
      → c.applied ≢ some want
      → c.problem ≡ some e
      → Setting want l z c []
  broke_off :
      {e : String}
      → z.layout_problem ≡ none
      → error_of (zone_write z l) ≡ some e
      → c.applied ≢ some want
      → c.problem ≡ some e
      → Setting want l z c (writes_of (zone_write z l))

-- When the read-back of the limits `l` is due, they are what is read.
abbrev pub IsVerified : Option ℕ → ℕ → Limits → ZoneAnswers → Type 0
IsVerified last now l z = (verified_lately last now ≡ true) ⊎ (as_expected l z.limits_read ≡ true)

-- What a tick leads to from `before` when the guard comes to be `g`: nothing to write, since the mode that
-- it wants was applied and has been read back within the interval, now if that was due; or the setting.
abbrev pub Ticked : Controller → ℕ → Guard → ZoneAnswers → Controller × List (ZoneFile × ℕ) → Type 0
Ticked before now g z (c, ws) =
    (c.guard ≡ g)
    × (((ws ≡ [])
          × (before.applied ≡ some (guard_mode g))
          × (c.applied ≡ some (guard_mode g))
          × IsVerified before.last_verify now (limits before (guard_mode g)) z)
        ⊎ Setting (guard_mode g) (limits before (guard_mode g)) z c ws)

-- The time window's tolerance: read limits match the set ones exactly when both powers are equal and
-- the window is within a quarter of the set one.
pub limits_match_iff :
    (l read : Limits)
    → (limits_match l read ≡ true) ↔ (
        (l.pl1_uw ≡ read.pl1_uw)
        × (l.pl2_uw ≡ read.pl2_uw)
        × (4 * l.tau_us ≤ 4 * read.tau_us + l.tau_us)
        × (4 * read.tau_us ≤ 4 * l.tau_us + l.tau_us))
unfolding limits_match
limits_match_iff l read = (λ h. ground arith, λ h. ground arith)
