-- ===== src/Power/Repeating.antt =====
-- src/power.rs, `Scheduler::poll`: the minutes that successive polls fire for.
use mathlib.Core.Path.{subst, ap}
use truenas_asustor_chassisd.Base.{
  ℕ, ◌+◌, ◌≤◌, ◌<◌, sym, ◌∙◌, inl, inr, Option, none, some, ℤ, arith, Option-cases, if-cases, leb,
  ltb,
}
use truenas_asustor_chassisd.Power.{
  LocalTime, Fired, Scheduler, RtcWorld, poll_clock, poll, max_gap_secs, abs_diff,
}
use truenas_asustor_chassisd.Power.Firing.{FiresAt, poll-poll_clock, poll_clock_forward}

-- The clock does not go back by more than the gap.
abbrev pub IsSteady : Option ℕ → ℕ → Type 0
IsSteady none now = Unit
IsSteady (some prev) now = prev ≤ now + max_gap_secs

-- Polls, one after another, at times that are steady.
pub data Polls (local : ℤ → LocalTime) : Scheduler → Scheduler → Type 0 where
  stay : {s : Scheduler} → Polls local s s
  polled :
      {s s' : Scheduler} (now : ℕ) (w : RtcWorld)
      → IsSteady s.checked_until now
      → Polls local (poll s now local w).0 s'
      → Polls local s s'

-- All minutes until `t` are dealt with.
abbrev DealtUntil : ℕ → Option ℕ → Type 0
DealtUntil t none = ⊥
DealtUntil t (some p) = t ≤ p

poll_clock-DealtUntil :
    (s : Scheduler) (now : ℕ) (local : ℤ → LocalTime) (t : ℕ)
    → DealtUntil t s.checked_until
    → IsSteady s.checked_until now
    → DealtUntil t (poll_clock s now local).0.checked_until
unfolding poll_clock
poll_clock-DealtUntil s now local t = elim (Option-cases s.checked_until) [
  | inl never ↦ rw (never, poll_clock) (λ h. absurd h)
  | inr (prev, mark) ↦
      rw (mark, poll_clock)
        (λ dealt steady.
          if-cases (λ (r : Scheduler × Option Fired). DealtUntil t r.0.checked_until)
            (ltb max_gap_secs (abs_diff now prev)) (λ far. ground arith)
            (λ near.
              if-cases (λ (r : Scheduler × Option Fired). DealtUntil t r.0.checked_until)
                (leb now prev) (λ back. subst (DealtUntil t) (sym mark) dealt)
                (λ on. ground arith)))
]

Polls-DealtUntil :
    {local : ℤ → LocalTime} {s s' : Scheduler} (t : ℕ)
    → DealtUntil t s.checked_until
    → Polls local s s'
    → DealtUntil t s'.checked_until
Polls-DealtUntil t dealt stay = dealt
Polls-DealtUntil {local} {s} t dealt (polled now w steady rest) =
    Polls-DealtUntil t
      (subst (DealtUntil t) (sym (poll-poll_clock s now local w).0)
        (poll_clock-DealtUntil s now local t dealt steady))
      rest

-- While the clock does not go back by more than 300 seconds, no minute fires twice: a poll that fires
-- later fires for a later minute.
pub fires_later :
    (s : Scheduler) (local : ℤ → LocalTime) (now now' : ℕ) (w : RtcWorld) {s' : Scheduler}
    {f f' : Fired} {m m' : ℕ}
    → FiresAt s local now f m
    → Polls local (poll s now local w).0 s'
    → FiresAt s' local now' f' m'
    → m < m'
fires_later s local now now' w {m} {m'} fires between again =
    let (prev, r, mark, near, whole, above, under, due, announces) = fires in
    let (prev', r', mark', near', whole', above', under', due', announces') = again in
    let forward = poll_clock_forward s prev now local mark (omega arith, near) in
    let marked =
      (poll-poll_clock s now local w).0
      ∙ ap (λ (t : Scheduler × Option Fired). t.0.checked_until) forward in
    let dealt = Polls-DealtUntil now (subst (DealtUntil now) (sym marked) (omega arith)) between in
    later prev' (subst (DealtUntil now) mark' dealt) above' under
  where
    later : (p : ℕ) → now ≤ p → p < m' → m ≤ now → m < m'
    later p a b c = omega arith
