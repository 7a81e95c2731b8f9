-- ===== src/Power/Firing.antt =====
-- src/power.rs, `Scheduler::poll`: which scheduled minutes fire, and how often.
use mathlib.Core.Bool.{true≢false}
use mathlib.Core.Path.{subst, ap}
use mathlib.Core.Option.{none-ne-some, some-injective}
use truenas_asustor_chassisd.Base.{
  ℕ, suc, ◌+◌, ◌%◌, ◌≤◌, ◌<◌, ◌≡◌, refl, sym, ◌∙◌, inl, inr, true, false, ◌&&◌, ◌||◌, Option, some,
  List, ℤ, arith, Option-cases, if-cases, leb, ltb,
}
use truenas_asustor_chassisd.Power.{
  PowerAction, power_on, shutdown, restart, Rule, LocalTime, is_power_off, is_shutdown,
  first_boundary, steps_until, minute_boundaries, due_at, best, last_due, Fired, Scheduler,
  RtcWorld, fire, poll_clock, poll, max_gap_secs, abs_diff, menu_action, sync_rtc, has_passed,
}
use truenas_asustor_chassisd.Panel.{shutdown as panel_shutdown, restart as panel_restart}
use truenas_asustor_chassisd.Power.Due.{IsDue, due_at_iff, best_sound, best_complete, best_shutdown}
use truenas_asustor_chassisd.Power.Boundaries.{
  boundary, boundary_in, boundary_of, last_boundary, last_due_sound, last_due_complete,
}

-- A poll within the gap, at `now`, of a schedule dealt with until `prev`.
abbrev pub IsForward : ℕ → ℕ → Type 0
IsForward prev now = (prev < now) × (now ≤ prev + max_gap_secs)

mark-sync_rtc :
    (s : Scheduler) (now : ℕ) (local : ℤ → LocalTime) (w : RtcWorld)
    → (sync_rtc s now local w).0.checked_until ≡ s.checked_until
unfolding sync_rtc
mark-sync_rtc s now local w =
    if-cases (λ (t : Scheduler × List (Option ℕ)). t.0.checked_until ≡ s.checked_until) s.rtc
      (λ on. refl) (λ off. refl)

-- The wake alarm is no part of what fires.
pub poll-poll_clock :
    (s : Scheduler) (now : ℕ) (local : ℤ → LocalTime) (w : RtcWorld)
    → ((poll s now local w).0.checked_until ≡ (poll_clock s now local).0.checked_until)
      × ((poll s now local w).1 ≡ (poll_clock s now local).1)
unfolding poll
poll-poll_clock s now local w =
    let c = poll_clock s now local in
    if-cases
      (λ (t : Scheduler × Option Fired × List (Option ℕ)).
        (t.0.checked_until ≡ c.0.checked_until) × (t.1 ≡ c.1))
      (c.0.rtc && (leb c.0.next_rtc_check now || has_passed c.0.armed now))
      (λ syncs. (mark-sync_rtc c.0 now local w, refl)) (λ rests. (refl, refl))

pub poll_clock_forward :
    (s : Scheduler) (prev now : ℕ) (local : ℤ → LocalTime)
    → s.checked_until ≡ some prev
    → IsForward prev now
    → poll_clock s now local ≡ (
      record s { checked_until = some now },
      fire (last_due s.rules local is_power_off (minute_boundaries prev now)),
    )
unfolding poll_clock
poll_clock_forward s prev now local mark (later, near) =
    rw (mark, poll_clock)
      (if-cases (λ t. t ≡ done) (ltb max_gap_secs (abs_diff now prev))
        (λ far. absurd (ground (arith, far, later, near)))
        (λ near.
          if-cases (λ t. t ≡ done) (leb now prev) (λ back. absurd (ground arith)) (λ on. refl)))
  where
    done : Scheduler × Option Fired
    done = (
      record s { checked_until = some now },
      fire (last_due s.rules local is_power_off (minute_boundaries prev now)),
    )

-- A poll that fires is one within the gap.
poll_clock_fired :
    (s : Scheduler) (now : ℕ) (local : ℤ → LocalTime) {f : Fired}
    → (poll_clock s now local).1 ≡ some f
    → (prev : ℕ) × (s.checked_until ≡ some prev) × IsForward prev now
unfolding poll_clock
poll_clock_fired s now local {f} = elim (Option-cases s.checked_until) [
  | inl never ↦ rw (never, poll_clock) (λ h. absurd (none-ne-some _ h))
  | inr (prev, mark) ↦
      rw (mark, poll_clock)
        (if-cases (λ (t : Scheduler × Option Fired). t.1 ≡ some f → Forward (some prev))
          (ltb max_gap_secs (abs_diff now prev)) (λ far h. absurd (none-ne-some _ h))
          (λ near.
            if-cases (λ (t : Scheduler × Option Fired). t.1 ≡ some f → Forward (some prev))
              (leb now prev) (λ back h. absurd (none-ne-some _ h))
              (λ on h. (prev, refl, (ground arith, ground arith)))))
]
  where
    Forward : Option ℕ → Type 0
    Forward mark = (prev : ℕ) × (mark ≡ some prev) × IsForward prev now

-- What a rule to power off puts up: its own action, with its countdown and label.
abbrev Announces : Rule → Fired → Type 0
Announces r f =
    (f.countdown_secs ≡ r.countdown_secs)
    × (f.label ≡ r.label)
    × (is_shutdown r ≡ true → f.action ≡ panel_shutdown)
    × (is_shutdown r ≡ false → f.action ≡ panel_restart)

fire-some :
    (r : Rule) → is_power_off r ≡ true → (f : Fired) × (fire (some r) ≡ some f) × Announces r f
unfolding fire is_power_off menu_action is_shutdown
fire-some r off =
    elim r.action as (λ a. Put a) [
      | power_on ↦ λ off. absurd (true≢false (sym off))
      | shutdown ↦ λ off. (_, refl, (refl, refl, (λ e. refl), (λ e. absurd (true≢false e))))
      | restart ↦ λ off. (_, refl, (refl, refl, (λ e. absurd (true≢false (sym e))), (λ e. refl)))
    ]
      off
  where
    Put : PowerAction → Type 0
    Put a =
        is_power_off (record r { action = a }) ≡ true
        → (f : Fired) × (fire (some (record r { action = a })) ≡ some f)
          × Announces (record r { action = a }) f

-- A poll of `s` at `now` shows `f` for the scheduled minute `m`.
abbrev pub FiresAt : Scheduler → (ℤ → LocalTime) → ℕ → Fired → ℕ → Type 0
FiresAt s local now f m =
    (prev : ℕ) × (r : Rule) × (s.checked_until ≡ some prev)
    × (now ≤ prev + max_gap_secs)
    × (m % 60 ≡ 0)
    × (prev < m)
    × (m ≤ now)
    × IsDue s.rules local is_power_off m r
    × Announces r f

-- What a poll fires is a rule of the schedule to shut down or restart, due at a whole minute after the
-- last poll's time and not after this one's, at most 300 seconds apart: never on the first poll, never
-- after a jump of the clock, never in a minute that the clock relives.
pub poll-FiresAt :
    (s : Scheduler) (now : ℕ) (local : ℤ → LocalTime) (w : RtcWorld) {f : Fired}
    → (poll s now local w).1 ≡ some f
    → (m : ℕ) × FiresAt s local now f m
unfolding minute_boundaries fire
poll-FiresAt s now local w {f} h =
    let h' = sym (poll-poll_clock s now local w).1 ∙ h in
    let (prev, mark, forward) = poll_clock_fired s now local h' in
    let e =
      sym (
        ap (λ (t : Scheduler × Option Fired). t.1)
          (poll_clock_forward s prev now local mark forward))
      ∙ h' in
    elim (Option-cases (last_due s.rules local is_power_off (minute_boundaries prev now))) [
      | inl nothing ↦ absurd (none-ne-some _ (sym (ap fire nothing) ∙ e))
      | inr (r, found) ↦ of_rule prev mark forward r found (sym (ap fire found) ∙ e)
    ]
  where
    of_rule :
        (prev : ℕ)
        → s.checked_until ≡ some prev
        → IsForward prev now
        → (r : Rule) → last_due s.rules local is_power_off (minute_boundaries prev now) ≡ some r
        → fire (some r) ≡ some f
        → (m : ℕ) × FiresAt s local now f m
    of_rule prev mark (later, near) r found fires =
        let (k, below, here) =
          last_due_sound s.rules local is_power_off (steps_until (first_boundary prev) now)
            (first_boundary prev) found in
        let (whole, above, under) = boundary_in prev now k below in
        let due =
          (due_at_iff s.rules local is_power_off (boundary prev k) r).0 (best_sound _ here) in
        let (g, e, announces) = fire-some r due.1 in
        (
          boundary prev k,
          (
            prev,
            r,
            mark,
            near,
            whole,
            above,
            under,
            due,
            subst (λ x. Announces r x) (some-injective _ _ (sym e ∙ fires)) announces,
          ),
        )

-- A rule to shut down or restart that is due at a whole minute after the last poll's time and not after
-- this one's, at most 300 seconds apart, makes the poll fire. If the rule shuts down and that minute is
-- the latest whole one, what fires is a shutdown, whatever restarts fall on the same minute.
pub poll_fires :
    (s : Scheduler) (now : ℕ) (local : ℤ → LocalTime) (w : RtcWorld) (prev m : ℕ) (r : Rule)
    → s.checked_until ≡ some prev
    → now ≤ prev + max_gap_secs
    → m % 60 ≡ 0
    → prev < m
    → m ≤ now
    → IsDue s.rules local is_power_off m r
    → (f : Fired) × ((poll s now local w).1 ≡ some f)
      × (is_shutdown r ≡ true → now < m + 60 → f.action ≡ panel_shutdown)
unfolding minute_boundaries
poll_fires s now local w prev m r mark near whole above under due =
    let first = first_boundary prev in
    let n = steps_until first now in
    let (k, below, e) = boundary_of prev now m whole above under in
    let listed =
      (due_at_iff s.rules local is_power_off (boundary prev k) r).1
        (subst (λ x. IsDue s.rules local is_power_off x r) e due) in
    let forward = poll_clock_forward s prev now local mark (omega arith, near) in
    elim (Option-cases (best (due_at s.rules (boundary prev k) local is_power_off))) [
      | inl nothing ↦ absurd (best_complete _ nothing listed)
      | inr (q, here) ↦
          let (b, found, last) =
            last_due_complete s.rules local is_power_off n first k below here in
          let (j, within, there) = last_due_sound s.rules local is_power_off n first found in
          let off =
            ((due_at_iff s.rules local is_power_off (boundary prev j) b).0
              (best_sound _ there)).1 in
          let (f, fires, announces) = fire-some b off in
          (
            f,
            (poll-poll_clock s now local w).1
                ∙ ap (λ (t : Scheduler × Option Fired). t.1) forward
                ∙ ap fire found
                ∙ fires,
            λ shuts soon. announces.2 (
                subst (λ x. is_shutdown x ≡ true) (sym (last (at_end k below e soon)))
                  (best_shutdown _ listed shuts here)),
          )
    ]
  where
    at_end :
        (k : ℕ)
        → k < steps_until (first_boundary prev) now
        → m ≡ boundary prev k
        → now < m + 60
        → suc k ≡ steps_until (first_boundary prev) now
    at_end k below e soon = last_boundary prev now k below (omega arith)
