-- ===== src/Watchdog/Tests.antt =====
-- The watchdog at concrete turns.
use truenas_asustor_chassisd.Base.{
  ℕ, ◌+◌, ◌*◌, ◌≤◌, ◌≡◌, refl, true, false, none, some, [], ◌∷◌, codes, arith,
}
use truenas_asustor_chassisd.Watchdog.{
  Progress, bump, age, should_ping, Watchdog, new_watchdog, ping, Turn, feed, main_loop_stall_after,
}
use truenas_asustor_chassisd.Watchdog.Feeding.{NeverLate, feed_healthy, feed-NeverLate}

abbrev alive : Progress
alive = record { last_ms = 7; epoch = 100 }

abbrev turn_at : ℕ → Turn
turn_at now = record { at = now; fan_age = 3; progress = alive; failure = none }

abbrev asked : Watchdog
asked = record { target = true; interval = 1000; last_sent = none; warned = false }

sends : (feed 5 asked (turn_at 8000000)).1 ≡ true
unfolding feed should_ping age ping
sends = refl

rests : (feed 5 (feed 5 asked (turn_at 8000000)).0 (turn_at 8000900)).1 ≡ false
unfolding feed should_ping age ping
rests = refl

stalled : (feed 5 asked (turn_at 301000000000)).1 ≡ false
unfolding feed should_ping age ping
stalled = refl

noted : alive ≡ bump alive 7500100
unfolding bump
noted = refl

feed_healthy_example : (3 ≤ 5) × (8000000 ≤ 7500100 + main_loop_stall_after)
feed_healthy_example =
    feed_healthy 5 7500100 alive asked (turn_at 8000000) noted (omega arith) sends

beats : should_ping 3 5 alive 8000000 ≡ true
unfolding should_ping age
beats = refl

beats_again : should_ping 3 5 alive 8000400 ≡ true
unfolding should_ping age
beats_again = refl

feed-NeverLate_example :
    let (w, sent) =
      feed 5
        (new_watchdog (some (codes "/run/notify")) (some (codes " 2 ")) true)
        (turn_at 8000000) in
    (sent ≡ true) × NeverLate 5 (2 * 1000) 8000000 w (turn_at 8000400 ∷ [])
feed-NeverLate_example =
    feed-NeverLate 5 1000 2 (codes "/run/notify") (codes " 2 ") (turn_at 8000000)
      (turn_at 8000400 ∷ []) refl refl (omega arith) (omega arith) beats refl
      (omega arith, omega arith, beats_again, refl, tt)
