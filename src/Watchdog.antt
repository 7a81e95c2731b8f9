-- ===== src/Watchdog.antt =====
-- src/sd_notify.rs: the main loop's progress, the decision to ping, and the rate-limited pings. The socket
-- is there or not, and answers a ping with an error or not; times are nanoseconds.
mod Feeding
mod Tests
use Prim.Native.String.{String}
use truenas_asustor_chassisd.Base.{
  ℕ, ◌-◌, ◌*◌, ◌/◌, ◌^◌, min, Bool, true, false, not, ◌&&◌, ◌||◌, Option, none, some, List, [], ◌∷◌,
  ltb, leb, if◌then◌else◌, Text, trim, parse_unsigned,
}

abbrev pub nanos_per_ms : ℕ
nanos_per_ms = 1000000

abbrev pub main_loop_stall_after : ℕ
main_loop_stall_after = 300 * 1000000000

abbrev pub u64_max : ℕ
u64_max = 2 ^ 64 - 1

pub record Progress : Type 0 where
  pub last_ms : ℕ
  pub epoch : ℕ

unfoldable pub new_progress : ℕ → Progress
new_progress now = record { last_ms = 0; epoch = now }

unfoldable pub bump : Progress → ℕ → Progress
bump p now = record p { last_ms = min u64_max ((now - p.epoch) / nanos_per_ms) }

unfoldable pub age : Progress → ℕ → ℕ
age p now = now - p.epoch - p.last_ms * nanos_per_ms

unfoldable pub should_ping : ℕ → ℕ → Progress → ℕ → Bool
unfolding age
should_ping fan_age fan_limit p now = leb fan_age fan_limit && leb (age p now) main_loop_stall_after

pub record Watchdog : Type 0 where
  pub target : Bool
  pub interval : ℕ
  pub last_sent : Option ℕ
  pub warned : Bool

abbrev pub disabled : Watchdog
disabled = record { target = false; interval = 0; last_sent = none; warned = false }

abbrev pub nonempty : Option Text → Bool
nonempty none = false
nonempty (some []) = false
nonempty (some (c ∷ t)) = true

abbrev pub period_of : Option ℕ → Option ℕ
period_of none = none
period_of (some u) = if ltb 0 u then some u else none

-- `opened` is whether `Target::open` succeeds.
unfoldable pub new_watchdog : Option Text → Option Text → Bool → Watchdog
new_watchdog notify_socket none opened = disabled
new_watchdog notify_socket (some usec) opened =
    if nonempty notify_socket
    then elim (period_of (parse_unsigned u64_max (trim usec))) [
      | none ↦ disabled
      | some u ↦
          if opened then record disabled { target = true; interval = u / 2 * 1000 } else disabled
    ]
    else disabled

abbrev pub sent_within : Option ℕ → ℕ → ℕ → Bool
sent_within none now interval = false
sent_within (some t) now interval = ltb (now - t) interval

-- The watchdog after a call, and whether a ping went out. `failure` is the socket's answer.
unfoldable pub ping : Watchdog → ℕ → Option String → Watchdog × Bool
ping w now failure =
    if not w.target || sent_within w.last_sent now w.interval then (w, false) else elim failure [
      | none ↦ (record w { last_sent = some now; warned = false }, true)
      | some e ↦ (record w { warned = true }, false)
    ]

-- What a turn of the feeder's thread finds.
pub record Turn : Type 0 where
  pub at : ℕ
  pub fan_age : ℕ
  pub progress : Progress
  pub failure : Option String

-- A turn of the loop of `spawn_feeder`, with `should_ping` as what is healthy.
unfoldable pub feed : ℕ → Watchdog → Turn → Watchdog × Bool
unfolding ping should_ping
feed fan_limit w t =
    if should_ping t.fan_age fan_limit t.progress t.at then ping w t.at t.failure else (w, false)
