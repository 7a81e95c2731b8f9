-- ===== src/Watchdog/Feeding.antt =====
-- src/sd_notify.rs, `spawn_feeder`: when systemd gets a ping, and when it does not.
use mathlib.Core.Path.{subst, ap}
use mathlib.Core.Bool.{and-eq-true_iff, true≢false}
use truenas_asustor_chassisd.Base.{
  ℕ, ◌+◌, ◌*◌, ◌/◌, ◌≤◌, ◌<◌, ◌≡◌, refl, sym, ◌∙◌, Bool, true, none, some, List, [], ◌∷◌, arith,
  leb, Text, trim, parse_unsigned, lt→ltb, if-cases, leb→le, if◌then◌else◌, ltb, ◌-◌,
}
use truenas_asustor_chassisd.Watchdog.{
  nonempty, period_of, disabled, new_watchdog, Progress, bump, age, should_ping, Watchdog, ping,
  Turn, feed, main_loop_stall_after, u64_max,
}

-- A ping goes out only while the fan thread's heartbeat is young enough and the main loop was alive, and
-- said so, at most 300 seconds ago, whatever the rounding to milliseconds.
pub feed_healthy :
    (fan_limit bumped : ℕ) (p : Progress) (w : Watchdog) (t : Turn)
    → t.progress ≡ bump p bumped
    → p.epoch ≤ bumped
    → (feed fan_limit w t).1 ≡ true
    → (t.fan_age ≤ fan_limit) × (t.at ≤ bumped + main_loop_stall_after)
unfolding feed should_ping age bump
feed_healthy fan_limit bumped p w t seen after =
    if-cases (λ (r : Watchdog × Bool). r.1 ≡ true → Healthy)
      (should_ping t.fan_age fan_limit t.progress t.at)
      (λ healthy sent.
        let (fan, main) = (and-eq-true_iff (leb t.fan_age fan_limit) _).0 healthy in
        (
          leb→le t.fan_age fan_limit fan,
          young (
              leb→le (age (bump p bumped) t.at) main_loop_stall_after
                (subst (λ x. leb (age x t.at) main_loop_stall_after ≡ true) seen main)),
        ))
      (λ unhealthy sent. absurd (true≢false (sym sent)))
  where
    Healthy : Type 0
    Healthy = (t.fan_age ≤ fan_limit) × (t.at ≤ bumped + main_loop_stall_after)

    young : age (bump p bumped) t.at ≤ main_loop_stall_after → t.at ≤ bumped + main_loop_stall_after
    young h = omega (arith, h)

-- The turns of a feeder that sleeps `tick` at most, all healthy and with a socket that works.
abbrev pub IsSteady : ℕ → ℕ → ℕ → List Turn → Type 0
IsSteady fan_limit tick from [] = Unit
IsSteady fan_limit tick from (t ∷ ts) =
    (from ≤ t.at)
    × (t.at ≤ from + tick)
    × (should_ping t.fan_age fan_limit t.progress t.at ≡ true)
    × (t.failure ≡ none)
    × IsSteady fan_limit tick t.at ts

-- The time of the last ping, after a turn in which one went out or not.
abbrev pub last_ping : ℕ → Turn → Bool → ℕ
last_ping last t sent = if sent then t.at else last

-- At every turn the ping that last went out, at `last` for the first of them, was at most `limit` ago.
abbrev pub NeverLate : ℕ → ℕ → ℕ → Watchdog → List Turn → Type 0
NeverLate fan_limit limit last w [] = Unit
NeverLate fan_limit limit last w (t ∷ ts) =
    (t.at ≤ last + limit)
    × NeverLate fan_limit limit (last_ping last t (feed fan_limit w t).1) (feed fan_limit w t).0 ts

-- The watchdog remembers when the last ping went out, and that was within the interval.
record IsFresh (w : Watchdog) (last now : ℕ) : Type 0 where
  there : w.target ≡ true
  remembered : w.last_sent ≡ some last
  past : last ≤ now
  recent : now ≤ last + w.interval

feed-IsFresh :
    (fan_limit last from : ℕ) (w : Watchdog) (t : Turn)
    → IsFresh w last from
    → should_ping t.fan_age fan_limit t.progress t.at ≡ true
    → t.failure ≡ none
    → from ≤ t.at
    → let (w', sent) = feed fan_limit w t in
      (w'.interval ≡ w.interval) × IsFresh w' (last_ping last t sent) t.at
unfolding feed ping
feed-IsFresh fan_limit last from w t fresh healthy works later =
    rw (healthy, works, fresh.there, fresh.remembered, feed)
      (if-cases
        (λ (r : Watchdog × Bool).
          (r.0.interval ≡ w.interval) × IsFresh r.0 (last_ping last t r.1) t.at)
        (ltb (t.at - last) w.interval)
        (λ waits. (
          refl,
          record {
            there = refl;
            remembered = refl;
            past = omega (arith, fresh.past, later);
            recent = ground arith;
          },
        ))
        (λ sends. (
          refl,
          record { there = refl; remembered = refl; past = omega arith; recent = omega arith },
        )))

fed-NeverLate :
    (fan_limit tick limit last from : ℕ) (w : Watchdog) (ts : List Turn)
    → IsFresh w last from
    → w.interval + tick ≤ limit
    → IsSteady fan_limit tick from ts
    → NeverLate fan_limit limit last w ts
fed-NeverLate fan_limit tick limit last from w [] fresh small steady = tt
fed-NeverLate fan_limit tick limit last from w (t ∷ ts) fresh small
      (later, soon, healthy, works, rest) =
    let (same, fresh') = feed-IsFresh fan_limit last from w t fresh healthy works later in
    (
      omega (arith, fresh.recent),
      fed-NeverLate fan_limit tick limit (last_ping last t (feed fan_limit w t).1) t.at
          (feed fan_limit w t).0 ts fresh' (subst (λ i. i + tick ≤ limit) (sym same) small) rest,
    )

opened :
    (usec : ℕ) (path text : Text)
    → nonempty (some path) ≡ true
    → parse_unsigned u64_max (trim text) ≡ some usec
    → 0 < usec
    → new_watchdog (some path) (some text) true
      ≡ record disabled { target = true; interval = usec / 2 * 1000 }
unfolding new_watchdog
opened usec path text given number above =
    if-cases (λ w. w ≡ record disabled { target = true; interval = usec / 2 * 1000 })
      (nonempty (some path)) (λ on. rw (number, lt→ltb 0 usec above, period_of) refl)
      (λ off. absurd (true≢false (sym given ∙ off)))

-- The first turn of a new watchdog.
first_feed :
    (fan_limit interval : ℕ) (t : Turn)
    → should_ping t.fan_age fan_limit t.progress t.at ≡ true
    → t.failure ≡ none
    → let w : Watchdog = record disabled { target = true; interval = interval } in
      feed fan_limit w t ≡ (record w { last_sent = some t.at }, true)
unfolding feed ping
first_feed fan_limit interval t healthy works = rw (healthy, works, feed) refl

-- For a watchdog that systemd asks for with a period of `usec` microseconds, and a feeder that wakes at
-- least every half period: as long as the fan thread and the main loop are found healthy and the socket
-- works, a ping goes out at the first turn, and at every later turn the ping that last went out was at
-- most the period ago.
pub feed-NeverLate :
    (fan_limit tick usec : ℕ) (path text : Text) (t : Turn) (ts : List Turn)
    → nonempty (some path) ≡ true
    → parse_unsigned u64_max (trim text) ≡ some usec
    → 0 < usec
    → tick ≤ usec * 500
    → should_ping t.fan_age fan_limit t.progress t.at ≡ true
    → t.failure ≡ none
    → IsSteady fan_limit tick t.at ts
    → let (w, sent) = feed fan_limit (new_watchdog (some path) (some text) true) t in
      (sent ≡ true) × NeverLate fan_limit (usec * 1000) t.at w ts
feed-NeverLate fan_limit tick usec path text t ts given number above often healthy works steady =
    let w : Watchdog = record disabled { target = true; interval = usec / 2 * 1000 } in
    subst (λ (r : Watchdog × Bool). (r.1 ≡ true) × NeverLate fan_limit (usec * 1000) t.at r.0 ts)
      (sym (
        ap (λ v. feed fan_limit v t) (opened usec path text given number above)
        ∙ first_feed fan_limit (usec / 2 * 1000) t healthy works))
      (
        refl,
        fed-NeverLate fan_limit tick (usec * 1000) t.at t.at (record w { last_sent = some t.at }) ts
            (record { there = refl; remembered = refl; past = omega arith; recent = omega arith })
            (omega arith) steady,
      )
