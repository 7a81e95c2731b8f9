-- ===== src/Panel/Leds.antt =====
-- src/state.rs, the LEDs: what the bays, the status and power LEDs and the brightness are set to, the
-- locates, entering and leaving night mode, and what a refresh feeds them.
use Prim.Native.String.{String}
use truenas_asustor_chassisd.Base.{
  ℕ, ◌*◌, min, Bool, true, false, not, ◌&&◌, ◌||◌, Option, none, some, List, [], ◌∷◌, ◌++◌, ltb,
  leb, ◌==◌, if◌then◌else◌, codes, length,
}
use truenas_asustor_chassisd.Alarm.{
  always_visible, Alarm, StatusPattern, ok, off, locating, discriminant, pattern_for_show,
  most_critical, is_given,
}
use truenas_asustor_chassisd.Panel.{
  nanos_per_sec, Override, ChassisLocate, StatusScreen, BayState, normal, alert, locate_bay,
  power_on, power_off, power_locate, LedWrite, set_status, set_power, set_bay, set_bay_night,
  prime_locate_bay, prime_locate_status, enter_night_mode, exit_night_mode, set_front_brightness,
  World, checked_add, AppState, reset_scroll, is_due,
}

unfoldable pub night_darkens_front : AppState → Bool
night_darkens_front s = not (is_given s.cfg.night_brightness)

-- `BTreeMap`, in the order of its keys.
abbrev pub contains_key : ℕ → List (ℕ × Option ℕ) → Bool
contains_key b [] = false
contains_key b ((c, u) ∷ m) = (b == c) || contains_key b m

abbrev pub insert : ℕ → Option ℕ → List (ℕ × Option ℕ) → List (ℕ × Option ℕ)
insert b u [] = (b, u) ∷ []
insert b u ((c, v) ∷ m) =
    let rest = insert b u m in
    if b == c then (b, u) ∷ m else if ltb b c then (b, u) ∷ (c, v) ∷ m else (c, v) ∷ rest

abbrev pub remove : ℕ → List (ℕ × Option ℕ) → List (ℕ × Option ℕ)
remove b [] = []
remove b ((c, v) ∷ m) = let rest = remove b m in if b == c then rest else (c, v) ∷ rest

abbrev pub keys : List (ℕ × Option ℕ) → List ℕ
keys [] = []
keys ((b, u) ∷ m) = b ∷ keys m

abbrev pub find_state : ℕ → List (ℕ × BayState) → BayState
find_state b [] = normal
find_state b ((c, x) ∷ states) = if c == b then x else find_state b states

abbrev pub is_bay : Option ℕ → ℕ → Bool
is_bay none b = false
is_bay (some a) b = a == b

unfoldable pub bay_led_state : AppState → World → ℕ → BayState
bay_led_state s w bay =
    if contains_key bay s.locate_bays
    then locate_bay
    else if is_bay s.alert_bay bay
    then alert
    else find_state bay w.bay_states

unfoldable pub bay_write : AppState → World → ℕ → LedWrite
unfolding bay_led_state
bay_write s w bay =
    if s.sleeping
    then set_bay_night bay (bay_led_state s w bay)
    else set_bay bay (bay_led_state s w bay)

unfoldable pub apply_bay_led : AppState → World → ℕ → AppState
unfolding bay_write
apply_bay_led s w bay = record s { writes = bay_write s w bay ∷ s.writes }

-- The arm of `recompute_status_led` above the verdict, and the verdict.
unfoldable pub wanted_pattern : AppState → Option Alarm → StatusPattern
unfolding night_darkens_front
wanted_pattern s a =
    if is_given s.locate_chassis
    then locating
    else if s.sleeping && night_darkens_front s
    then off
    else elim a [ none ↦ ok | some x ↦ x.pattern ]

unfoldable pub pushed_alarm : Option Override → List Alarm
unfolding pattern_for_show
pushed_alarm none = []
pushed_alarm (some ov) = elim (pattern_for_show ov.level ov.look) [
  | none ↦ []
  | some p ↦ record { level = ov.level; pattern = p; line0 = ov.line0; line1 = ov.line1 } ∷ []
]

abbrev pub is_shown : Option StatusPattern → StatusPattern → Bool
is_shown none p = false
is_shown (some q) p = discriminant q == discriminant p

abbrev pub show_pattern : AppState → StatusPattern → AppState
show_pattern s p = record s {
  status_shown = if is_shown s.status_shown p then s.status_shown else some p;
  writes = if is_shown s.status_shown p then s.writes else set_status p ∷ s.writes;
}

unfoldable pub recompute_status_led : AppState → World → AppState
unfolding most_critical pushed_alarm wanted_pattern
recompute_status_led s w =
    let a = most_critical (pushed_alarm s.over ++ w.health_alarms) in
    show_pattern (record s { alarm = a }) (wanted_pattern s a)

-- The bay of the active override that its level lets flash.
unfoldable pub wanted_bay : Option Override → Option ℕ
unfolding always_visible
wanted_bay none = none
wanted_bay (some ov) = if always_visible ov.level then ov.bay else none

abbrev pub same_bay : Option ℕ → Option ℕ → Bool
same_bay none none = true
same_bay (some a) (some b) = a == b
same_bay _ _ = false

-- The bay that stops alerting, and the one that starts or goes on.
unfoldable pub alert_writes : Option ℕ → Option ℕ → AppState → World → List LedWrite
unfolding bay_write
alert_writes previous want s w =
    elim want [ none ↦ [] | some b ↦ bay_write s w b ∷ [] ] ++ elim previous [
      | none ↦ []
      | some b ↦ if same_bay (some b) want then [] else bay_write s w b ∷ []
    ]

unfoldable pub sync_leds_to_override : AppState → World → AppState
unfolding wanted_bay recompute_status_led alert_writes
sync_leds_to_override s w =
    let want = wanted_bay s.over in
    let synced = record s { alert_bay = want } in
    recompute_status_led
      (record synced { writes = alert_writes s.alert_bay want synced w ++ s.writes }) w

unfoldable pub apply_power_led : AppState → AppState
unfolding night_darkens_front
apply_power_led s = record s {
  writes =
      set_power (
        if is_given s.locate_chassis
        then power_locate
        else if s.sleeping && night_darkens_front s
        then power_off
        else power_on)
      ∷ s.writes;
}

-- The night level while asleep, unless a chassis locate is on; else the day level.
abbrev pub wanted_brightness : AppState → Option ℕ
wanted_brightness s = elim s.cfg.night_brightness [
  | none ↦ s.day_brightness
  | some n ↦
      if s.sleeping && not (is_given s.locate_chassis) then some (min n 100) else s.day_brightness
]

-- Whether a write is due: there is a level, and it is not the one applied last.
abbrev pub brightness_due : AppState → Option ℕ
brightness_due s = elim (wanted_brightness s) [
  | none ↦ none
  | some p ↦ if same_bay s.applied_brightness (some p) then none else some p
]

unfoldable pub apply_front_brightness : AppState → World → AppState
apply_front_brightness s w = record s {
  applied_brightness = elim (brightness_due s) [
    | none ↦ s.applied_brightness
    | some p ↦ if is_given w.brightness_failed then s.applied_brightness else some p
  ];
  brightness_problem = elim (brightness_due s) [
    | none ↦ s.brightness_problem
    | some p ↦ w.brightness_failed
  ];
  writes = elim (brightness_due s) [ none ↦ s.writes | some p ↦ set_front_brightness p ∷ s.writes ];
}

abbrev pub note_nic_leds : AppState → Option String → AppState
note_nic_leds s problem = record s { nic_led_problem = problem }

-- The NIC LEDs are only written where the front LEDs are: otherwise the call succeeds.
abbrev pub night_result : Bool → World → Option String
night_result front w = if front then w.nic_problem else none

abbrev pub locate_writes : List ℕ → List LedWrite → List LedWrite
locate_writes [] ws = ws
locate_writes (b ∷ bs) ws = locate_writes bs (set_bay b locate_bay ∷ ws)

unfoldable pub reassert_locate_leds : AppState → AppState
reassert_locate_leds s =
    let ws = locate_writes (keys s.locate_bays) s.writes in
    record s {
      status_shown = if is_given s.locate_chassis then some locating else s.status_shown;
      writes =
          if is_given s.locate_chassis
          then set_status locating ∷ set_power power_locate ∷ ws
          else ws;
    }

unfoldable pub bays_writes : List (ℕ × BayState) → AppState → World → List LedWrite → List LedWrite
unfolding bay_write
bays_writes [] s w ws = ws
bays_writes ((b, x) ∷ states) s w ws = bays_writes states s w (bay_write s w b ∷ ws)

unfoldable pub update_health_leds : AppState → World → AppState
unfolding recompute_status_led bays_writes
update_health_leds s w =
    recompute_status_led (record s { writes = bays_writes w.bay_states s w s.writes }) w

-- The screens of `refresh_stale`: never none of them, and the index stays on one.
abbrev pub placeholder : StatusScreen
placeholder = record { line0 = codes "LCM-STATUS"; line1 = codes "no screens enabled" }

abbrev pub gathered : List StatusScreen → List StatusScreen
gathered [] = placeholder ∷ []
gathered (x ∷ xs) = x ∷ xs

abbrev pub take_screens : AppState → World → AppState
take_screens s w =
    let screens = gathered w.fetched in
    record s { screens = screens; index = if leb (length screens) s.index then 0 else s.index }

-- Which LEDs a refresh recomputes.
unfoldable pub refresh_leds : Bool → Bool → AppState → World → AppState
unfolding update_health_leds recompute_status_led
refresh_leds true new s w = update_health_leds s w
refresh_leds false true s w = recompute_status_led s w
refresh_leds false false s w = s

unfoldable pub refresh_stale : AppState → World → AppState
unfolding refresh_leds
refresh_stale s w = refresh_leds w.disks_due w.inputs_new (take_screens s w) w

-- Every category is due.
unfoldable pub refresh_all : AppState → World → AppState
unfolding refresh_leds
refresh_all s w = refresh_leds true true (take_screens s w) w

unfoldable pub wake : AppState → World → AppState
unfolding night_darkens_front reassert_locate_leds refresh_all apply_front_brightness
wake s w =
    let front = night_darkens_front s in
    let up = record s {
      sleeping = false;
      status_shown = if front then none else s.status_shown;
      writes = exit_night_mode front ∷ s.writes;
    } in
    reassert_locate_leds
      (refresh_all (apply_front_brightness (note_nic_leds up (night_result front w)) w) w)

-- Entering night mode, in `tick`.
unfoldable pub fall_asleep : AppState → World → AppState
unfolding night_darkens_front reassert_locate_leds apply_front_brightness
fall_asleep s w =
    let front = night_darkens_front s in
    let down = record s {
      sleeping = true;
      status_shown = if front then some off else s.status_shown;
      writes = enter_night_mode front ∷ s.writes;
    } in
    reassert_locate_leds (apply_front_brightness (note_nic_leds down (night_result front w)) w)

-- The locates.
abbrev pub locate_until : World → ℕ → Option ℕ
locate_until w ttl_secs = if ltb 0 ttl_secs then checked_add w (ttl_secs * nanos_per_sec) else none

unfoldable pub start_locate : AppState → World → Option ℕ → ℕ → AppState
unfolding apply_bay_led apply_front_brightness recompute_status_led apply_power_led
start_locate s w (some b) ttl_secs =
    apply_bay_led
      (record s {
        locate_bays = insert b (locate_until w ttl_secs) s.locate_bays;
        writes = if contains_key b s.locate_bays then s.writes else prime_locate_bay b ∷ s.writes;
      })
      w b
start_locate s w none ttl_secs =
    let begun = record s {
      locate_chassis = some (record { until = locate_until w ttl_secs; hostname = w.hostname });
      writes = if is_given s.locate_chassis then s.writes else prime_locate_status ∷ s.writes;
    } in
    apply_front_brightness (recompute_status_led (apply_power_led (reset_scroll begun)) w) w

unfoldable pub end_bay_locate : AppState → World → ℕ → AppState
unfolding apply_bay_led
end_bay_locate s w b =
    if contains_key b s.locate_bays
    then apply_bay_led (record s { locate_bays = remove b s.locate_bays }) w b
    else s

unfoldable pub end_bay_locates : AppState → World → List ℕ → AppState
unfolding end_bay_locate
end_bay_locates s w [] = s
end_bay_locates s w (b ∷ bs) = end_bay_locates (end_bay_locate s w b) w bs

unfoldable pub end_chassis_locate : AppState → World → AppState
unfolding apply_front_brightness recompute_status_led apply_power_led
end_chassis_locate s w = elim s.locate_chassis [
  | none ↦ s
  | some c ↦
      let ended = reset_scroll (record s { locate_chassis = none }) in
      apply_front_brightness (recompute_status_led (apply_power_led ended) w) w
]

unfoldable pub stop_locate : AppState → World → Option ℕ → AppState
unfolding end_bay_locate end_chassis_locate end_bay_locates
stop_locate s w (some b) = end_bay_locate s w b
stop_locate s w none = end_chassis_locate (end_bay_locates s w (keys s.locate_bays)) w

abbrev pub expired : World → List (ℕ × Option ℕ) → List ℕ
expired w [] = []
expired w ((b, u) ∷ m) = let rest = expired w m in if is_due w u then b ∷ rest else rest

abbrev pub chassis_due : World → Option ChassisLocate → Bool
chassis_due w none = false
chassis_due w (some c) = is_due w c.until

unfoldable pub expire_locates : AppState → World → AppState
unfolding end_bay_locates end_chassis_locate
expire_locates s w =
    let s' = end_bay_locates s w (expired w s.locate_bays) in
    if chassis_due w s'.locate_chassis then end_chassis_locate s' w else s'
