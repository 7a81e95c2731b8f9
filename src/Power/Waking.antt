-- ===== src/Power/Waking.antt =====
-- src/power.rs, `next_occurrence` and `Scheduler::sync_rtc_with`: the next power on, and the wake alarm.
use mathlib.Core.List.{Memᴰ}
use Prim.Native.String.{String}
use mathlib.Core.Bool.{true≢false}
use mathlib.Core.Path.{subst, ap}
use mathlib.Core.Option.{some-ne-none}
use truenas_asustor_chassisd.Base.{
  ℕ, ◌+◌, ◌*◌, ◌%◌, ◌≤◌, ◌<◌, ◌≡◌, refl, sym, ◌∙◌, ◌⊎◌, inl, inr, Bool, true, false, Option, none,
  some, List, [], ◌∷◌, ℤ, arith, Option-cases, if-cases, ==_iff, ltb, leb, ◌&&◌, ◌||◌,
}
use truenas_asustor_chassisd.Power.{
  steps, time_of, Rule, LocalTime, is_power_on, first_boundary, steps_until, minute_boundaries,
  due_at, best, find_due, any_rule, next_occurrence, next_power_on, Scheduler, RtcWorld, RtcRead,
  rtc_reads, rtc_unreadable, sync_rtc, Fired, poll, poll_clock, max_gap_secs, abs_diff, has_passed,
  lookahead_minutes, write_rtc, same_time, set_rtc, arm_rtc,
}
use truenas_asustor_chassisd.Power.Due.{IsDue, due_at_iff, best_sound, best_complete}
use truenas_asustor_chassisd.Power.Boundaries.{
  boundary, boundary_in, boundary_of, find_due_sound, find_due-none,
}

-- Nothing of the kind is due at the whole minutes after `after` and before `until`.
abbrev pub NoneDue : List Rule → (ℤ → LocalTime) → (Rule → Bool) → ℕ → ℕ → Type 0
NoneDue rules local filter after until =
    (m : ℕ) (r : Rule) → m % 60 ≡ 0 → after < m → m < until → IsDue rules local filter m r → ⊥

-- The answer is a rule due at a whole minute within eight days, the first at which any is; there is none only if none is due in that time.
abbrev pub IsNext : List Rule → ℕ → (ℤ → LocalTime) → (Rule → Bool) → Option (ℕ × Rule) → Type 0
IsNext rules after local filter none =
    NoneDue rules local filter after (after + lookahead_minutes * 60 + 1)
IsNext rules after local filter (some (m, r)) =
    (m % 60 ≡ 0)
    × (after < m)
    × (m ≤ after + lookahead_minutes * 60)
    × IsDue rules local filter m r
    × NoneDue rules local filter after m

any_rule_complete :
    (filter : Rule → Bool) (rules : List Rule) {r : Rule}
    → Memᴰ r rules
    → filter r ≡ true
    → any_rule filter rules ≡ true
any_rule_complete filter [] d h = elim d [ ]
any_rule_complete filter (q ∷ rules) (Memᴰ.head e) h = rw (subst (λ x. filter x ≡ true) e h) refl
any_rule_complete filter (q ∷ rules) (Memᴰ.tail d) h =
    ground (arith, any_rule_complete filter rules d h)

pub next_occurrence-IsNext :
    (rules : List Rule) (after : ℕ) (local : ℤ → LocalTime) (filter : Rule → Bool)
    → IsNext rules after local filter (next_occurrence rules after local filter)
unfolding next_occurrence minute_boundaries
next_occurrence-IsNext rules after local filter =
    if-cases (λ o. IsNext rules after local filter o) (any_rule filter rules)
      (λ any. searched (Option-cases _))
      (λ off m r whole above below due.
        absurd (true≢false (sym (any_rule_complete filter rules due.0 due.1) ∙ off)))
  where
    until : ℕ
    until = after + lookahead_minutes * 60

    first : ℕ
    first = first_boundary after

    search : Option (ℕ × Rule)
    search = find_due rules local filter (steps (steps_until first until) first)

    no_rule :
        (k : ℕ)
        → best (due_at rules (boundary after k) local filter) ≡ none
        → (m : ℕ) → m ≡ boundary after k
        → (r : Rule) → IsDue rules local filter m r
        → ⊥
    no_rule k nothing m e r due = best_complete _ nothing (
        (due_at_iff rules local filter (boundary after k) r).1
          (subst (λ x. IsDue rules local filter x r) e due))

    searched :
        (search ≡ none) ⊎ ((a : ℕ × Rule) × (search ≡ some a))
        → IsNext rules after local filter search
    searched (inl nothing) =
        subst (λ o. IsNext rules after local filter o) (sym nothing)
          (λ m r whole above below due.
            let (k, in_range, e) = boundary_of after until m whole above (omega arith) in
            no_rule k (find_due-none rules local filter _ first nothing k in_range) m e r due)
    searched (inr ((t, q), found)) =
        let (k, below, e, here, before) =
          find_due_sound rules local filter (steps_until first until) first found in
        let (whole, above, under) = boundary_in after until k below in
        let due = (due_at_iff rules local filter (boundary after k) q).0 (best_sound _ here) in
        subst (λ o. IsNext rules after local filter o) (sym found)
          (
            subst (λ x. x % 60 ≡ 0) (sym e) whole,
            omega arith,
            omega arith,
            subst (λ x. IsDue rules local filter x q) (sym e) due,
            λ m r whole' above' earlier due'.
                let (j, in_range, e') = boundary_of after until m whole' above' (omega arith) in
                no_rule j (before j (omega arith)) m e' r due',
          )

-- The alarm's file after writes.
abbrev written : Option ℕ → List (Option ℕ) → Option ℕ
written at [] = at
written at (x ∷ writes) = written x writes

-- The kernel refuses to replace an armed alarm by another: an alarm is written only over none.
abbrev pub NeverReplaces : Option ℕ → List (Option ℕ) → Type 0
NeverReplaces at [] = Unit
NeverReplaces at (none ∷ writes) = NeverReplaces none writes
NeverReplaces at (some t ∷ writes) = (at ≡ none) × NeverReplaces (some t) writes

same_time_sound : (a b : Option ℕ) → same_time a b ≡ true → a ≡ b
same_time_sound none none h = refl
same_time_sound (some a) (some b) h = ap some ((==_iff a b).0 h)
same_time_sound none (some b) h = absurd (true≢false (sym h))
same_time_sound (some a) none h = absurd (true≢false (sym h))

-- What writing `want` to an alarm that stood at `at` comes to.
abbrev Writes : Option ℕ → Option ℕ → List (Option ℕ) × Option String → Type 0
Writes at want (writes, error) = NeverReplaces at writes × (error ≡ none → written at writes ≡ want)

arm_rtc-Writes : (w : RtcWorld) (at want : Option ℕ) → Writes at want (arm_rtc w want)
arm_rtc-Writes w at none = (tt, λ e. refl)
arm_rtc-Writes w at (some t) =
    elim w.arm_error as (λ o. Writes at (some t) (arm_rtc (record w { arm_error = o }) (some t))) [
      | none ↦ ((refl, tt), λ e. refl)
      | some x ↦ (tt, λ e. absurd (some-ne-none _ e))
    ]

write_rtc-Writes :
    (w : RtcWorld) (at want : Option ℕ)
    → w.contents ≡ rtc_reads at
    → Writes at want (write_rtc w want)
unfolding write_rtc
write_rtc-Writes w at want reads =
    rw (reads, write_rtc)
      (if-cases (λ r. Writes at want r) (same_time at want)
        (λ same. (tt, λ e. same_time_sound at want same)) (λ differs. set_up))
  where
    set_up : Writes at want (set_rtc w want)
    set_up =
        elim w.disarm_error
          as (λ o. Writes at want (set_rtc (record w { disarm_error = o }) want)) [
            | none ↦ arm_rtc-Writes w at want
            | some x ↦ (tt, λ e. absurd (some-ne-none _ e))
          ]

-- The file could be read, and now has `want`.
abbrev pub IsHeld : RtcRead → Option ℕ → List (Option ℕ) → Type 0
IsHeld (rtc_reads at) want writes = written at writes ≡ want
IsHeld (rtc_unreadable e) want writes = ⊥

write_rtc-IsHeld :
    (w : RtcWorld) (want : Option ℕ)
    → (write_rtc w want).1 ≡ none
    → IsHeld w.contents want (write_rtc w want).0
unfolding write_rtc
write_rtc-IsHeld w want = elim w.contents as (λ c. Held c) [
  | rtc_reads at ↦ (write_rtc-Writes (record w { contents = rtc_reads at }) at want refl).1
  | rtc_unreadable e ↦ λ h. some-ne-none _ h
]
  where
    Held : RtcRead → Type 0
    Held c =
        (write_rtc (record w { contents = c }) want).1 ≡ none
        → IsHeld c want (write_rtc (record w { contents = c }) want).0

-- With a rule to power on, a check of the wake alarm that meets no error leaves the alarm's file at the
-- first time that one is due (cleared if none is within eight days), and remembers it as armed; after an
-- error nothing counts as armed. An armed alarm is never overwritten by another, as the kernel demands.
pub sync_rtc-IsHeld :
    (s : Scheduler) (now : ℕ) (local : ℤ → LocalTime) (w : RtcWorld)
    → s.rtc ≡ true
    → let (s', writes) = sync_rtc s now local w in
      (next : Option (ℕ × Rule)) × IsNext s.rules now local is_power_on next
      × (s'.rtc_error ≡ none → (s'.armed ≡ time_of next) × IsHeld w.contents (time_of next) writes)
      × ((e : String) → s'.rtc_error ≡ some e → s'.armed ≡ none)
      × ((at : Option ℕ) → w.contents ≡ rtc_reads at → NeverReplaces at writes)
unfolding sync_rtc next_power_on
sync_rtc-IsHeld s now local w on =
    let next = next_occurrence s.rules now local is_power_on in
    let result = write_rtc w (time_of next) in
    rw (on, sync_rtc)
      (
        next,
        next_occurrence-IsNext s.rules now local is_power_on,
        (λ fine. (rw fine refl, write_rtc-IsHeld w (time_of next) fine)),
        (λ e failed. rw failed refl),
        (λ at reads. (write_rtc-Writes w at (time_of next) reads).0),
      )

-- A time remembered as armed is in the future.
abbrev pub IsAhead : Option ℕ → ℕ → Type 0
IsAhead none now = Unit
IsAhead (some t) now = now < t

next_power_on-IsAhead :
    (rules : List Rule) (local : ℤ → LocalTime) (now : ℕ)
    → IsAhead (next_power_on rules local now) now
unfolding next_power_on
next_power_on-IsAhead rules local now =
    later (next_occurrence rules now local is_power_on)
      (next_occurrence-IsNext rules now local is_power_on)
  where
    later : (o : Option (ℕ × Rule)) → IsNext rules now local is_power_on o → IsAhead (time_of o) now
    later none h = tt
    later (some (m, r)) h = h.1

rtc-poll_clock :
    (s : Scheduler) (now : ℕ) (local : ℤ → LocalTime) → (poll_clock s now local).0.rtc ≡ s.rtc
unfolding poll_clock
rtc-poll_clock s now local = elim (Option-cases s.checked_until) [
  | inl never ↦ rw (never, poll_clock) refl
  | inr (prev, mark) ↦
      rw (mark, poll_clock)
        (if-cases (λ (t : Scheduler × Option Fired). t.0.rtc ≡ s.rtc)
          (ltb max_gap_secs (abs_diff now prev)) (λ far. refl)
          (λ near.
            if-cases (λ (t : Scheduler × Option Fired). t.0.rtc ≡ s.rtc) (leb now prev)
              (λ back. refl) (λ forward. refl)))
]

synced-IsAhead :
    (s : Scheduler) (now : ℕ) (local : ℤ → LocalTime) (w : RtcWorld)
    → s.rtc ≡ true
    → let t = (sync_rtc s now local w).0 in (now < t.next_rtc_check) × IsAhead t.armed now
unfolding sync_rtc
synced-IsAhead s now local w on =
    rw (on, sync_rtc) (omega arith, armed (write_rtc w (next_power_on s.rules local now)).1)
  where
    armed :
        (o : Option String)
        → IsAhead (elim o [ none ↦ next_power_on s.rules local now | some e ↦ none ]) now
    armed none = next_power_on-IsAhead s.rules local now
    armed (some e) = tt

-- After every poll of a scheduler that manages the wake alarm, the next check of it is still to come, and
-- so is the time remembered as armed: neither a due check nor an alarm that passed is left to a later poll.
pub poll-IsAhead :
    (s : Scheduler) (now : ℕ) (local : ℤ → LocalTime) (w : RtcWorld)
    → s.rtc ≡ true
    → let s' = (poll s now local w).0 in (now < s'.next_rtc_check) × IsAhead s'.armed now
unfolding poll
poll-IsAhead s now local w on =
    let c = (poll_clock s now local).0 in
    if-cases
      (λ (t : Scheduler × Option Fired × List (Option ℕ)).
        (now < t.0.next_rtc_check) × IsAhead t.0.armed now)
      (c.rtc && (leb c.next_rtc_check now || has_passed c.armed now))
      (λ due. synced-IsAhead c now local w (rtc-poll_clock s now local ∙ on))
      (λ rests. ahead c (rtc-poll_clock s now local ∙ on) rests)
  where
    not_passed : (o : Option ℕ) → has_passed o now ≡ false → IsAhead o now
    not_passed none h = tt
    not_passed (some t) h = ground arith

    ahead :
        (c : Scheduler)
        → c.rtc ≡ true
        → (c.rtc && (leb c.next_rtc_check now || has_passed c.armed now)) ≡ false
        → (now < c.next_rtc_check) × IsAhead c.armed now
    ahead c managed h =
        let quiet =
          ap (λ b. b && (leb c.next_rtc_check now || has_passed c.armed now)) (sym managed) ∙ h in
        (ground arith, not_passed c.armed (ground arith))
