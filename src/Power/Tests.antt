-- ===== src/Power/Tests.antt =====
-- The power schedule at concrete times.
use Prim.Native.String.{String}
use mathlib.Core.List.{Memᴰ}
use mathlib.Core.Path.{subst}
use truenas_asustor_chassisd.Power.Rules.{
  PowerRule, parse_rules, parse_rules_from, parse_rule, parse_action, parse_days, days_from,
  day_mask, parse_hhmm, with_countdown, rule_label, days_text, action_name, lint, clashes,
  clashes_with, missed, missed_by, wakes_too_soon, clash, week_minutes, too_soon,
}
use truenas_asustor_chassisd.Power.Validity.{IsRuleOf, parse_rules-IsRuleOf}
use truenas_asustor_chassisd.Base.{
  sym, codes, ℕ, ◌+◌, ◌/◌, ◌%◌, ◌<◌, ◌≡◌, refl, true, Option, none, some, List, [], ◌∷◌, ℤ, pos,
  pos_part, arith,
}
use truenas_asustor_chassisd.Panel.{shutdown as panel_shutdown, restart as panel_restart}
use truenas_asustor_chassisd.Power.{
  shutdown, power_on, restart, Rule, LocalTime, Fired, Scheduler, RtcWorld, rtc_reads, with_rtc,
  poll, sync_rtc, matches, is_repeated_wall_time, is_power_off, is_power_on, is_shutdown,
  next_occurrence, time_of, fire, last_due, due_at, poll_clock, best, best_from, better, matching,
  minute_boundaries, menu_action, same_wall, next_power_on, find_due, write_rtc,
}
use truenas_asustor_chassisd.Power.Due.{IsDue}
use truenas_asustor_chassisd.Power.Firing.{FiresAt, poll-FiresAt, poll_fires}
use truenas_asustor_chassisd.Power.Repeating.{Polls, IsSteady, polled, stay, fires_later}
use truenas_asustor_chassisd.Power.Waking.{IsNext, IsHeld, NeverReplaces, sync_rtc-IsHeld}

abbrev utc : ℤ → LocalTime
utc t = record {
  year = 1970;
  month = 1;
  day = 1 + pos_part t / 86400;
  weekday = (pos_part t / 86400 + 4) % 7;
  hour = pos_part t / 3600 % 24;
  minute = pos_part t / 60 % 60;
  utc_offset = pos 0;
}

abbrev rule_off : Rule
rule_off = record {
  days = 127;
  minute_of_day = 5;
  action = shutdown;
  countdown_secs = 60;
  label = b'#' ∷ [];
}

abbrev rule_again : Rule
rule_again = record {
  days = 127;
  minute_of_day = 6;
  action = restart;
  countdown_secs = 60;
  label = b'#' ∷ [];
}

abbrev rule_on : Rule
rule_on = record {
  days = 127;
  minute_of_day = 7;
  action = power_on;
  countdown_secs = 0;
  label = [];
}

abbrev rules : List Rule
rules = rule_off ∷ rule_again ∷ rule_on ∷ []

abbrev running : Scheduler
running = record {
  rules = rules;
  rtc = true;
  checked_until = some 290;
  armed = none;
  next_rtc_check = 0;
  rtc_error = none;
}

abbrev answers : RtcWorld
answers = record { contents = rtc_reads (some 999); disarm_error = none; arm_error = none }

abbrev fired : Fired
fired = record { action = panel_shutdown; countdown_secs = 60; label = b'#' ∷ [] }

-- The first poll fires nothing; the alarm is disarmed before it is set.
starts : (poll (with_rtc rules) 300 utc answers).1 ≡ none
unfolding with_rtc poll poll_clock sync_rtc fire last_due due_at best best_from better matching
    matches is_repeated_wall_time minute_boundaries is_power_off is_power_on is_shutdown menu_action
    same_wall next_power_on next_occurrence find_due write_rtc
starts = refl

fires : (poll running 310 utc answers).1 ≡ some fired
unfolding poll poll_clock sync_rtc fire last_due due_at best best_from better matching matches
    is_repeated_wall_time minute_boundaries is_power_off is_power_on is_shutdown menu_action
    same_wall next_power_on next_occurrence find_due write_rtc
fires = refl

sets : (poll running 310 utc answers).2 ≡ none ∷ some 420 ∷ []
unfolding poll poll_clock sync_rtc fire last_due due_at best best_from better matching matches
    is_repeated_wall_time minute_boundaries is_power_off is_power_on is_shutdown menu_action
    same_wall next_power_on next_occurrence find_due write_rtc
sets = refl

due : IsDue rules utc is_power_off 300 rule_off
unfolding matches is_repeated_wall_time same_wall is_power_off
due = (Memᴰ.head refl, refl, refl, refl)

poll-FiresAt_example : (m : ℕ) × FiresAt running utc 310 fired m
poll-FiresAt_example = poll-FiresAt running 310 utc answers fires

poll_fires_example :
    (f : Fired) × ((poll running 310 utc answers).1 ≡ some f)
    × (is_shutdown rule_off ≡ true → 310 < 300 + 60 → f.action ≡ panel_shutdown)
poll_fires_example =
    poll_fires running 310 utc answers 290 300 rule_off refl (omega arith) refl (omega arith)
      (omega arith) due

-- A poll that fires nothing, then one that fires the next minute's rule.
abbrev later_on : Scheduler
later_on = record running { checked_until = some 330; armed = some 420; next_rtc_check = 370 }

abbrev fired_again : Fired
fired_again = record { action = panel_restart; countdown_secs = 60; label = b'#' ∷ [] }

fires_again : (poll later_on 370 utc answers).1 ≡ some fired_again
unfolding poll poll_clock sync_rtc fire last_due due_at best best_from better matching matches
    is_repeated_wall_time minute_boundaries is_power_off is_power_on is_shutdown menu_action
    same_wall next_power_on next_occurrence find_due write_rtc
fires_again = refl

between : Polls utc (poll (poll running 310 utc answers).0 330 utc answers).0 later_on
unfolding poll poll_clock sync_rtc fire last_due due_at best best_from better matching matches
    is_repeated_wall_time minute_boundaries is_power_off is_power_on is_shutdown menu_action
    same_wall next_power_on next_occurrence find_due write_rtc
between = stay

steady : IsSteady (poll running 310 utc answers).0.checked_until 330
unfolding poll poll_clock sync_rtc fire last_due due_at best best_from better matching matches
    is_repeated_wall_time minute_boundaries is_power_off is_power_on is_shutdown menu_action
    same_wall next_power_on next_occurrence find_due write_rtc
steady = omega arith

fires_later_example :
    (poll-FiresAt running 310 utc answers fires).0
    < (poll-FiresAt later_on 370 utc answers fires_again).0
fires_later_example =
    fires_later running utc 310 370 answers (poll-FiresAt running 310 utc answers fires).1
      (polled 330 answers steady between) (poll-FiresAt later_on 370 utc answers fires_again).1

sync_rtc-IsHeld_example :
    let (s', writes) = sync_rtc running 300 utc answers in
    (next : Option (ℕ × Rule)) × IsNext rules 300 utc is_power_on next
    × (s'.rtc_error ≡ none
        → (s'.armed ≡ time_of next) × IsHeld answers.contents (time_of next) writes)
    × ((e : String) → s'.rtc_error ≡ some e → s'.armed ≡ none)
    × ((at : Option ℕ) → answers.contents ≡ rtc_reads at → NeverReplaces at writes)
sync_rtc-IsHeld_example = sync_rtc-IsHeld running 300 utc answers refl

abbrev entry : PowerRule
entry = record {
  enabled = true;
  raw_action = codes " Reboot";
  raw_days = codes "weekdays" ∷ codes "Sunday" ∷ [];
  raw_time = codes "23:05";
  raw_countdown_secs = 60;
}

abbrev parsed_entry : Rule
parsed_entry = record {
  days = 63;
  minute_of_day = 1385;
  action = restart;
  countdown_secs = 60;
  label = codes "#1 restart sun,mon,tue,wed,thu,fri 23:05";
}

parses : parse_rules (entry ∷ []) ≡ parsed_entry ∷ []
unfolding parse_rules parse_rules_from parse_rule parse_action parse_days days_from day_mask
    parse_hhmm with_countdown rule_label days_text action_name
parses = refl

parse_rules-IsRuleOf_example :
    (raw : PowerRule) × Memᴰ raw (entry ∷ []) × (raw.enabled ≡ true) × IsRuleOf raw parsed_entry
parse_rules-IsRuleOf_example =
    parse_rules-IsRuleOf (entry ∷ [])
      (subst (λ l. Memᴰ parsed_entry l) (sym parses) (Memᴰ.head refl))

abbrev late_off : Rule
late_off = record rule_off { minute_of_day = 1410 }

abbrev early_on : Rule
early_on = record rule_on { minute_of_day = 420 }

reported :
    lint (late_off ∷ record early_on { minute_of_day = 1413 } ∷ []) ≡ too_soon [] (b'#' ∷ []) 6 ∷ []
unfolding lint clashes clashes_with missed missed_by wakes_too_soon clash week_minutes is_power_on
    is_power_off is_shutdown
reported = refl
