-- ===== src/Power/Rules.antt =====
-- src/power.rs, the rules: `PowerAction::parse`, `parse_days`, `Rule::parse`, `parse_rules` and `lint`, with
-- `parse_hhmm` and `PowerRule` of src/config.rs. An error is a value with the text it quotes.
use Prim.Native.Nat.{bit_or}
use truenas_asustor_chassisd.Base.{
  ℕ, zero, suc, min, ◌+◌, ◌-◌, ◌*◌, ◌/◌, ◌%◌, ◌^◌, Bool, true, false, not, ◌&&◌, ◌||◌, Option, none,
  some, List, [], ◌∷◌, ◌++◌, ltb, ◌==◌, if◌then◌else◌, Text, codes, decimal, to_ascii_lowercase,
  trim, one_of, split_once, parse_unsigned,
}
use truenas_asustor_chassisd.Power.{
  PowerAction, power_on, shutdown, restart, Rule, has_day, is_power_on, is_power_off, is_shutdown,
}

abbrev pub max_countdown_secs : ℕ
max_countdown_secs = 3600

abbrev pub shutdown_margin_minutes : ℕ
shutdown_margin_minutes = 5

-- An entry of the configuration.
pub record PowerRule : Type 0 where
  pub enabled : Bool
  pub raw_action : Text
  pub raw_days : List Text
  pub raw_time : Text
  pub raw_countdown_secs : ℕ

pub data RuleError : Type 0 where
  no_days no_action : RuleError
  unknown_day unknown_action bad_time : Text → RuleError
  countdown_too_long : ℕ → RuleError

pub data Parsed (A : Type 0) : Type 0 where
  good : A → Parsed A
  bad : RuleError → Parsed A

infixl 10 ◌>>=◌
abbrev pub ◌>>=◌ : {A B : Type 0} → Parsed A → (A → Parsed B) → Parsed B
good a >>= f = f a
bad e >>= f = bad e

unfoldable pub parse_action : Text → Option PowerAction
parse_action s =
    let t = to_ascii_lowercase (trim s) in
    if one_of t (codes "power_on" ∷ codes "poweron" ∷ codes "wake" ∷ [])
    then some power_on
    else if one_of t (codes "shutdown" ∷ codes "power_off" ∷ codes "poweroff" ∷ [])
    then some shutdown
    else if one_of t (codes "restart" ∷ codes "reboot" ∷ [])
    then some restart
    else none

unfoldable pub action_name : PowerAction → Text
action_name power_on = codes "power on"
action_name shutdown = codes "shutdown"
action_name restart = codes "restart"

-- The names of the days, with the full ones.
abbrev pub day_names : List (Text × Text)
day_names =
    (codes "sun", codes "sunday")
    ∷ (codes "mon", codes "monday")
    ∷ (codes "tue", codes "tuesday")
    ∷ (codes "wed", codes "wednesday")
    ∷ (codes "thu", codes "thursday")
    ∷ (codes "fri", codes "friday")
    ∷ (codes "sat", codes "saturday")
    ∷ []

-- `1 << i` for the first day of that name, `i` counted from `bit`'s.
abbrev pub day_bit : Text → ℕ → List (Text × Text) → Option ℕ
day_bit d bit [] = none
day_bit d bit ((short, full) ∷ names) =
    let later = day_bit d (bit * 2) names in
    if one_of d (short ∷ full ∷ []) then some bit else later

unfoldable pub day_mask : Text → Option ℕ
day_mask day =
    let d = to_ascii_lowercase (trim day) in
    if one_of d (codes "daily" ∷ codes "everyday" ∷ codes "all" ∷ [])
    then some 127
    else if one_of d (codes "weekdays" ∷ [])
    then some 62
    else if one_of d (codes "weekends" ∷ [])
    then some 65
    else day_bit d 1 day_names

unfoldable pub days_from : ℕ → List Text → Parsed ℕ
unfolding day_mask
days_from mask [] = good mask
days_from mask (day ∷ days) = elim (day_mask day) [
  | none ↦ bad (unknown_day day)
  | some m ↦ days_from (bit_or mask m) days
]

unfoldable pub parse_days : List Text → Parsed ℕ
unfolding days_from
parse_days [] = bad no_days
parse_days (day ∷ days) = days_from 0 (day ∷ days)

abbrev pub u32_max : ℕ
u32_max = 2 ^ 32 - 1

abbrev pub time_of_day : Option ℕ → Option ℕ → Option ℕ
time_of_day (some h) (some m) = if ltb h 24 && ltb m 60 then some (h * 60 + m) else none
time_of_day _ _ = none

unfoldable pub parse_hhmm : Text → Option ℕ
parse_hhmm s = elim (split_once b':' (trim s)) [
  | none ↦ none
  | some p ↦ time_of_day (parse_unsigned u32_max p.0) (parse_unsigned u32_max p.1)
]

-- The names of the days from `bit`'s on, with a comma before each but the first.
abbrev pub listed_days : ℕ → Bool → ℕ → List (Text × Text) → Text
listed_days mask first i [] = []
listed_days mask first i ((short, full) ∷ names) =
    let later = listed_days mask (first && not (has_day mask i)) (i + 1) names in
    if has_day mask i then (if first then [] else b',' ∷ []) ++ (short ++ later) else later

unfoldable pub days_text : ℕ → Text
days_text mask =
    if mask == 127
    then codes "daily"
    else if mask == 62
    then codes "weekdays"
    else if mask == 65
    then codes "weekends"
    else listed_days mask true 0 day_names

-- `{:02}`.
abbrev pub two_digits : ℕ → Text
two_digits n = if ltb n 10 then b'0' ∷ decimal n else decimal n

unfoldable pub rule_label : ℕ → PowerAction → ℕ → ℕ → Text
unfolding action_name days_text
rule_label index action days minute =
    b'#'
    ∷ (decimal (index + 1)
        ++ (b' '
            ∷ (action_name action
                ++ (b' '
                    ∷ (days_text days
                        ++ (b' '
                            ∷ (two_digits (minute / 60) ++ (b':' ∷ two_digits (minute % 60)))))))))

abbrev pub action_error : Text → RuleError
action_error [] = no_action
action_error (c ∷ t) = unknown_action (c ∷ t)

abbrev pub good_or : {A : Type 0} → Option A → RuleError → Parsed A
good_or none e = bad e
good_or (some a) e = good a

-- The end of `Rule::parse`.
unfoldable pub with_countdown : ℕ → PowerAction → ℕ → ℕ → ℕ → Parsed Rule
unfolding rule_label
with_countdown index a mask minute secs =
    if ltb max_countdown_secs secs
    then bad (countdown_too_long secs)
    else good (record {
      days = mask;
      minute_of_day = minute;
      action = a;
      countdown_secs = secs;
      label = rule_label index a mask minute;
    })

unfoldable pub parse_rule : ℕ → PowerRule → Parsed Rule
unfolding parse_action parse_days parse_hhmm with_countdown
parse_rule index raw = do
  a ← good_or (parse_action raw.raw_action) (action_error raw.raw_action)
  mask ← parse_days raw.raw_days
  minute ← good_or (parse_hhmm raw.raw_time) (bad_time raw.raw_time)
  with_countdown index a mask minute raw.raw_countdown_secs

unfoldable pub parse_rules_from : ℕ → List PowerRule → List Rule
unfolding parse_rule
parse_rules_from index [] = []
parse_rules_from index (raw ∷ raws) =
    let rest = parse_rules_from (index + 1) raws in
    if raw.enabled then elim (parse_rule index raw) [ good r ↦ r ∷ rest | bad e ↦ rest ] else rest

unfoldable pub parse_rules : List PowerRule → List Rule
unfolding parse_rules_from
parse_rules raws = parse_rules_from 0 raws

abbrev pub week : ℕ
week = 7 * 1440

-- The minutes of the `n` days from `d` on.
abbrev pub week_minutes_from : Rule → ℕ → ℕ → List ℕ
week_minutes_from r d zero = []
week_minutes_from r d (suc n) =
    let rest = week_minutes_from r (d + 1) n in
    if has_day r.days d then (d * 1440 + r.minute_of_day) ∷ rest else rest

unfoldable pub week_minutes : Rule → List ℕ
week_minutes r = week_minutes_from r 0 7

abbrev pub any : {A : Type 0} → (A → Bool) → List A → Bool
any f [] = false
any f (x ∷ xs) = f x || any f xs

-- What is reported: two labels, and the minutes for the second kind.
pub data LintIssue : Type 0 where
  same_minute : Text → Text → LintIssue
  too_soon : Text → Text → ℕ → LintIssue

abbrev pub differ : Bool → Bool → Bool
differ true b = not b
differ false b = b

-- Of two rules to power off, whose actions differ if one shuts down and the other does not.
unfoldable pub clash : Rule → Rule → Bool
unfolding week_minutes is_shutdown
clash a b =
    differ (is_shutdown a) (is_shutdown b)
    && any (λ m. any (λ n. n == m) (week_minutes b)) (week_minutes a)

unfoldable pub clashes_with : Rule → List Rule → List LintIssue
unfolding clash is_power_off
clashes_with a [] = []
clashes_with a (b ∷ rules) =
    let rest = clashes_with a rules in
    if is_power_off b && clash a b then same_minute a.label b.label ∷ rest else rest

unfoldable pub clashes : List Rule → List LintIssue
unfolding clashes_with is_power_off
clashes [] = []
clashes (a ∷ rules) =
    let rest = clashes rules in if is_power_off a then clashes_with a rules ++ rest else rest

abbrev pub window : Rule → ℕ
window off = min u32_max ((off.countdown_secs + 59) / 60 + shutdown_margin_minutes)

unfoldable pub wakes_too_soon : Rule → Rule → Bool
unfolding week_minutes
wakes_too_soon off on =
    any (λ m. any (λ n. ltb ((n + week - m) % week) (window off)) (week_minutes on))
      (week_minutes off)

unfoldable pub missed_by : Rule → List Rule → List LintIssue
unfolding wakes_too_soon is_power_on
missed_by off [] = []
missed_by off (on ∷ rules) =
    let rest = missed_by off rules in
    if is_power_on on && wakes_too_soon off on
    then too_soon on.label off.label (window off) ∷ rest
    else rest

unfoldable pub missed : List Rule → List Rule → List LintIssue
unfolding missed_by is_shutdown
missed rules [] = []
missed rules (off ∷ offs) =
    let rest = missed rules offs in if is_shutdown off then missed_by off rules ++ rest else rest

unfoldable pub lint : List Rule → List LintIssue
unfolding clashes missed
lint rules = clashes rules ++ missed rules rules
