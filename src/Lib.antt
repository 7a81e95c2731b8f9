-- ===== src/Lib.antt =====
-- The chassis daemon of ASUSTOR boxes under TrueNAS: a model of its logic and what is proved of it.
--
-- Parts, and the files that model them:
--   Base, Base/*: shared names, tests on numbers, lists, signed numbers, and the functions on texts of
--     Rust's standard library that the parsers use.
--   Float, Float/Degrees: `f32` as an interface, and whole degrees as an instance for concrete runs.
--   Lcm, Lcm/*: the front panel's serial protocol (src/protocol.rs). Lcm/Frame has the frames
--     (`encode`, `decode`), Lcm/Port the state of `Lcm` and the loops of `send_within` and
--     `read_frame`, Lcm/Link `send_and_ack`, `set_text` and the other operations.
--   Alarm, Alarm/*: levels, status LED patterns and the alarm that decides (src/alarm.rs, and what it
--     takes from src/socket.rs and src/led.rs).
--   Panel, Panel/*: the daemon's state machine (src/state.rs). Panel has `AppState`, Panel/Leds what
--     the LEDs show and the locates, Panel/Flow messages and keys (`show_override`,
--     `apply_socket_command`, `handle_key`, `start_countdown`), Panel/Screen `render` and the
--     scrolling, Panel/Tick `tick`, Panel/Events the events that src/main.rs drives it with.
--   Fan, Fan/*: a fan's controller (src/fan.rs): `track_sensors`, the targets, `plan`, `apply`,
--     `update`, `health_level`.
--   Wol, Wol/*: Wake-on-LAN (src/wol.rs): modes, `enforce_one` and the keeper's log.
--   Power, Power/*: the power schedule (src/power.rs). Power has the boundaries and the `Scheduler`
--     (`poll`, `sync_rtc`), Power/Rules the parsing of rules and `lint`.
--   Socket, Socket/*: requests on the Unix socket (src/socket.rs): `parse_request`, `locate_request`, the
--     queue to the main loop and the places of the connections (Socket/Slots).
--   Health, Health/*: the alarms of the daemon's own checks (`health_summary` of src/state.rs).
--   Monitor, Monitor/*: what is logged of temperatures, pools and bays (src/monitor.rs).
--   Watchdog, Watchdog/*: feeding systemd's watchdog (src/sd_notify.rs).
--   Template, Template/*: the texts of the screens (src/template.rs).
--   Config, Config/*: some of the checks on a loaded configuration (src/config.rs): the CPU power section,
--     `TemplatesConfig::validate`, `effective_order`, `SleepConfig::contains`.
--   DriverWatch, DriverWatch/*: noticing the platform driver (src/driver_watch.rs).
--   CpuPower, CpuPower/*: the CPU power limits and their guard (src/cpu_power.rs), with
--     `resolve_temp_threshold` of src/config.rs, which the fans use too.
--
-- How they interact: src/main.rs reads frames from the panel (Lcm) and turns their keys, socket
-- requests and the passing of time into the events of Panel, whose lines it writes back with
-- `set_text`; the fans' health, as a level, is among the causes
-- of Health, whose alarms Panel shows with those of its messages. Socket's requests are
-- Panel's commands, and what Power fires is Panel's event of a countdown. Config checks a screen's texts
-- with Template's `placeholders`.
--
-- How the code is modelled: a `&mut self` method is a function that returns the new record; time is a
-- number of nanoseconds, without the overflow of `Instant + Duration` except where the source tests
-- for it (`deadline_after`); what the kernel or a file answers is an argument (a script of answers, a
-- snapshot, the answers of the zone's files, Panel's `World`, `FanWorld`), which is the same during one
-- call; log lines are left out, but the state that decides what is logged is kept where it decides
-- anything else. LED writes of Panel are a list in its state. The
-- stalls that Fan counts are a natural without the end of `u32`, and a fan's least expected speed, a `u32`
-- that the source compares as `f64`, is a value of the float interface. The seconds of Power are naturals without
-- the ends of `i64`, where the source saturates; an instant before 1970 is only asked for by looking back
-- from one, so the local time is a function on integers.
-- The wait for an acknowledgement runs on fuel, one more than the answers left in the script: each of
-- its turns reads at least one of them. A decimal number is written on fuel, one more
-- than the number, which has no more digits; a template's loops on its length, since every turn takes at
-- least one of its characters.
--
-- Not modelled: opening devices, threads, sockets and child processes, the text of log lines; the
-- caches behind Panel's screens, and the readings behind the health checks, which are arguments; the
-- configuration but its power rules and the checks of Config, and the buzzer.
pub mod Base
pub mod Lcm
pub mod Alarm
pub mod Panel
pub mod DriverWatch
pub mod Float
pub mod CpuPower
pub mod Wol
pub mod Power
pub mod Socket
pub mod Watchdog
pub mod Monitor
pub mod Template
pub mod Health
pub mod Config
pub mod Fan
