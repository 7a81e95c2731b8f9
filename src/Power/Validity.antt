-- ===== src/Power/Validity.antt =====
-- src/power.rs, `Rule::parse` and `parse_rules`: what an accepted rule is like.
use mathlib.Core.List.{Memᴰ}
use mathlib.Core.Bool.{and-eq-true_iff}
use mathlib.Core.Path.{subst}
use truenas_asustor_chassisd.Base.{
  ℕ, ◌+◌, ◌*◌, ◌≤◌, ◌<◌, ◌≡◌, refl, sym, true, ◌&&◌, Option, none, some, List, [], ◌∷◌, Text, arith,
  ltb, if-cases, ltb→lt, codes, one_of, to_ascii_lowercase, trim, split_once, parse_unsigned,
}
use truenas_asustor_chassisd.Power.{PowerAction, Rule, power_on, shutdown, restart}
use truenas_asustor_chassisd.Power.Rules.{
  PowerRule, Parsed, good, bad, good_or, parse_days, time_of_day, parse_hhmm, parse_action,
  with_countdown, parse_rule, parse_rules_from, parse_rules, max_countdown_secs, bad_time,
  action_error, RuleError, u32_max,
}
use truenas_asustor_chassisd.Power.Days.{Holds, Holds-bind, HasDays, is_named, parse_days-HasDays}

-- The time is an hour and a minute of the day with a colon between them.
pub record IsTimeOf (time : Text) (minute_of_day : ℕ) : Type 0 where
  pub hour_text : Text
  pub minute_text : Text
  pub hour : ℕ
  pub minute : ℕ
  pub parted : split_once b':' (trim time) ≡ some (hour_text, minute_text)
  pub hour_read : parse_unsigned u32_max hour_text ≡ some hour
  pub minute_read : parse_unsigned u32_max minute_text ≡ some minute
  pub hour_below : hour < 24
  pub minute_below : minute < 60
  pub counted : minute_of_day ≡ 60 * hour + minute

parse_hhmm-IsTimeOf :
    (e : RuleError) (time : Text) → Holds (IsTimeOf time) (good_or (parse_hhmm time) e)
unfolding parse_hhmm
parse_hhmm-IsTimeOf e time = of_split (split_once b':' (trim time)) refl
  where
    of_time :
        (hh mm : Text) (h m : Option ℕ)
        → split_once b':' (trim time) ≡ some (hh, mm)
        → parse_unsigned u32_max hh ≡ h
        → parse_unsigned u32_max mm ≡ m
        → Holds (IsTimeOf time) (good_or (time_of_day h m) e)
    of_time hh mm none m parted rh rm = tt
    of_time hh mm (some h) none parted rh rm = tt
    of_time hh mm (some h) (some m) parted rh rm =
        if-cases (λ o. Holds (IsTimeOf time) (good_or o e)) (ltb h 24 && ltb m 60)
          (λ fits.
            let (below, under) = (and-eq-true_iff (ltb h 24) _).0 fits in
            record {
              hour_text = hh;
              minute_text = mm;
              hour = h;
              minute = m;
              parted = parted;
              hour_read = rh;
              minute_read = rm;
              hour_below = ltb→lt h 24 below;
              minute_below = ltb→lt m 60 under;
              counted = omega arith;
            })
          (λ off. tt)

    of_split :
        (o : Option (Text × Text))
        → split_once b':' (trim time) ≡ o
        → Holds (IsTimeOf time) (
            good_or
              (elim o [
                | none ↦ none
                | some p ↦ time_of_day (parse_unsigned u32_max p.0) (parse_unsigned u32_max p.1)
              ])
              e)
    of_split none parted = tt
    of_split (some (hh, mm)) parted = of_time hh mm _ _ parted refl refl

-- The names of an action.
abbrev pub names_of : PowerAction → List Text
names_of power_on = codes "power_on" ∷ codes "poweron" ∷ codes "wake" ∷ []
names_of shutdown = codes "shutdown" ∷ codes "power_off" ∷ codes "poweroff" ∷ []
names_of restart = codes "restart" ∷ codes "reboot" ∷ []

-- The text, in whatever case and with spaces around it, is a name of the action.
abbrev pub IsActionOf : Text → PowerAction → Type 0
IsActionOf text a = one_of (to_ascii_lowercase (trim text)) (names_of a) ≡ true

parse_action-IsActionOf :
    (e : RuleError) (text : Text) → Holds (IsActionOf text) (good_or (parse_action text) e)
unfolding parse_action
parse_action-IsActionOf e text =
    let w = to_ascii_lowercase (trim text) in
    let P : Option PowerAction → Type 0 = λ o. Holds (IsActionOf text) (good_or o e) in
    if-cases P (one_of w (names_of power_on)) (λ named. named)
      (λ n1.
        if-cases P (one_of w (names_of shutdown)) (λ named. named)
          (λ n2. if-cases P (one_of w (names_of restart)) (λ named. named) (λ n3. tt)))

-- Exactly the weekdays that the entry names, at least one of them and no other bit; the time that it gives;
-- its countdown, of at most an hour; and the action that it names.
abbrev pub IsRuleOf : PowerRule → Rule → Type 0
IsRuleOf raw r =
    HasDays (is_named raw.raw_days) r.days
    × IsTimeOf raw.raw_time r.minute_of_day
    × (r.countdown_secs ≤ max_countdown_secs)
    × (r.countdown_secs ≡ raw.raw_countdown_secs)
    × IsActionOf raw.raw_action r.action

parse_rule-IsRuleOf : (index : ℕ) (raw : PowerRule) → Holds (IsRuleOf raw) (parse_rule index raw)
unfolding parse_rule with_countdown
parse_rule-IsRuleOf index raw =
    Holds-bind (IsActionOf raw.raw_action) (IsRuleOf raw)
      (good_or (parse_action raw.raw_action) (action_error raw.raw_action)) _
      (parse_action-IsActionOf (action_error raw.raw_action) raw.raw_action)
      (λ a named.
        Holds-bind (HasDays (is_named raw.raw_days)) (IsRuleOf raw) (parse_days raw.raw_days) _
          (parse_days-HasDays raw.raw_days)
          (λ mask is.
            Holds-bind (IsTimeOf raw.raw_time) (IsRuleOf raw)
              (good_or (parse_hhmm raw.raw_time) (bad_time raw.raw_time)) _
              (parse_hhmm-IsTimeOf (bad_time raw.raw_time) raw.raw_time)
              (λ minute fits.
                if-cases (Holds (IsRuleOf raw)) (ltb max_countdown_secs raw.raw_countdown_secs)
                  (λ over. tt) (λ within. (is, fits, ground arith, refl, named)))))

-- Every rule of the schedule comes from an enabled entry of the configuration, and is as that entry says:
-- it has exactly the weekdays that the entry names, at least one; its minute is the hour and minute that
-- the entry gives, 60 times the hour more; its countdown is the entry's, at most an hour; its action is
-- one that the entry's text is a name of.
pub parse_rules-IsRuleOf :
    (raws : List PowerRule) {r : Rule}
    → Memᴰ r (parse_rules raws)
    → (raw : PowerRule) × Memᴰ raw raws × (raw.enabled ≡ true) × IsRuleOf raw r
unfolding parse_rules parse_rules_from
parse_rules-IsRuleOf raws {r} d = of_entries 0 raws d
  where
    From : List PowerRule → Type 0
    From raws = (raw : PowerRule) × Memᴰ raw raws × (raw.enabled ≡ true) × IsRuleOf raw r

    later : (raw : PowerRule) (raws : List PowerRule) → From raws → From (raw ∷ raws)
    later raw raws (q, m, on, is) = (q, Memᴰ.tail m, on, is)

    here :
        (raw : PowerRule) (raws : List PowerRule) (rest : List Rule) (p : Parsed Rule)
        → Holds (IsRuleOf raw) p
        → raw.enabled ≡ true
        → (Memᴰ r rest → From (raw ∷ raws))
        → Memᴰ r (elim p [ good q ↦ q ∷ rest | bad e ↦ rest ])
        → From (raw ∷ raws)
    here raw raws rest (bad e) is on k d = k d
    here raw raws rest (good q) is on k (Memᴰ.head e) =
        (raw, Memᴰ.head refl, on, subst (IsRuleOf raw) (sym e) is)
    here raw raws rest (good q) is on k (Memᴰ.tail d) = k d

    of_entries : (i : ℕ) (raws : List PowerRule) → Memᴰ r (parse_rules_from i raws) → From raws
    of_entries i [] d = elim d [ ]
    of_entries i (raw ∷ raws) d =
        let rest = λ (d : Memᴰ r (parse_rules_from (i + 1) raws)).
          later raw raws (of_entries (i + 1) raws d) in
        if-cases (λ l. Memᴰ r l → From (raw ∷ raws)) raw.enabled
          (λ on.
            here raw raws (parse_rules_from (i + 1) raws) (parse_rule i raw)
              (parse_rule-IsRuleOf i raw) on rest)
          (λ off. rest) d
