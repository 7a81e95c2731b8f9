-- ===== src/Monitor/Following.antt =====
-- src/monitor.rs, `check_temps`: what is logged of one sensor over any history of sweeps.
use Prim.Native.String.{String}
use text.Mathlib.Text.{◌==◌ as str_eq}
use text.Mathlib.TextEquality.{eq_iff}
use mathlib.Core.Path.{subst, ap}
use mathlib.Core.Bool.{true≢false}
use truenas_asustor_chassisd.Base.{
  ◌≡◌, refl, sym, ◌∙◌, Bool, true, false, ◌||◌, ◌==◌, Option, none, some, List, [], ◌∷◌, ◌++◌,
  if-cases, inl, inr, Bool-cases, if◌then◌else◌,
}
use truenas_asustor_chassisd.Float.{F32}
use truenas_asustor_chassisd.Alarm.{Level, rank, info, warn, error, critical}
use truenas_asustor_chassisd.CpuPower.{Reading, TemperatureConfig, resolve_temp_threshold}
use truenas_asustor_chassisd.Monitor.{
  lookup, insert, retain, Line, temp_critical, temp_warn, temp_normal, TempState, level_of_state,
  same_level, is_some, temp_lines, level_at, note_temp, is_connected, note_temps, check_temps,
}
use truenas_asustor_chassisd.Monitor.Maps.{
  lookup-insert_self, lookup-insert_ne, lookup-retain_kept, lookup-retain_gone,
}

-- Whether a line is about the sensor.
abbrev pub is_about : String → Line → Bool
is_about label (temp_critical l) = str_eq l label
is_about label (temp_warn l) = str_eq l label
is_about label (temp_normal l) = str_eq l label
is_about label _ = false

abbrev pub lines_about : String → List Line → List Line
lines_about label [] = []
lines_about label (l ∷ ls) =
    if is_about label l then l ∷ lines_about label ls else lines_about label ls

lines_about-append :
    (label : String) (a b : List Line)
    → lines_about label (a ++ b) ≡ lines_about label a ++ lines_about label b
lines_about-append label [] b = refl
lines_about-append label (l ∷ a) b =
    if-cases
      (λ (x : List Line).
        x
        ≡ (if is_about label l then l ∷ lines_about label a else lines_about label a)
          ++ lines_about label b)
      (is_about label l) (λ on. rw (on, lines_about-append label a b) refl)
      (λ off. rw (off, lines_about-append label a b) refl)

-- The lines that a reading can have.
temp_lines_cases :
    (j : String) (prev : Option Level) (l : Level) (P : List Line → Type 0)
    → P []
    → P (temp_critical j ∷ [])
    → P (temp_warn j ∷ [])
    → P (temp_normal j ∷ [])
    → P (temp_lines j prev l)
unfolding temp_lines
temp_lines_cases j prev l P p0 p1 p2 p3 =
    if-cases P (same_level prev l) (λ e. p0)
      (λ e.
        if-cases P (rank l == rank critical) (λ e. p1)
          (λ e.
            if-cases P (rank l == rank warn) (λ e. p2)
              (λ e. if-cases P (is_some prev) (λ e. p3) (λ e. p0))))

own_temp_lines :
    (label : String) (prev : Option Level) (l : Level)
    → lines_about label (temp_lines label prev l) ≡ temp_lines label prev l
own_temp_lines label prev l =
    let self = (eq_iff label label).1 refl in
    temp_lines_cases label prev l (λ ls. lines_about label ls ≡ ls) refl (rw self refl)
      (rw self refl) (rw self refl)

other_temp_lines :
    (j label : String) (prev : Option Level) (l : Level)
    → str_eq j label ≡ false
    → lines_about label (temp_lines j prev l) ≡ []
other_temp_lines j label prev l off =
    temp_lines_cases j prev l (λ ls. lines_about label ls ≡ []) refl (rw off refl) (rw off refl)
      (rw off refl)

-- What is to be told of a level after the one before: nothing while it stays, critical and warn by
-- name, and a return to neither of them only if a level was known. (`level_at` is never `error`.)
unfoldable pub line_for : String → Option Level → Level → List Line
line_for label (some critical) critical = []
line_for label _ critical = temp_critical label ∷ []
line_for label (some warn) warn = []
line_for label _ warn = temp_warn label ∷ []
line_for label none _ = []
line_for label (some info) info = []
line_for label (some error) error = []
line_for label (some _) _ = temp_normal label ∷ []

temp_lines-line_for :
    (label : String) (prev : Option Level) (l : Level)
    → temp_lines label prev l ≡ line_for label prev l
unfolding temp_lines line_for
temp_lines-line_for label none info = refl
temp_lines-line_for label none warn = refl
temp_lines-line_for label none error = refl
temp_lines-line_for label none critical = refl
temp_lines-line_for label (some info) info = refl
temp_lines-line_for label (some info) warn = refl
temp_lines-line_for label (some info) error = refl
temp_lines-line_for label (some info) critical = refl
temp_lines-line_for label (some warn) info = refl
temp_lines-line_for label (some warn) warn = refl
temp_lines-line_for label (some warn) error = refl
temp_lines-line_for label (some warn) critical = refl
temp_lines-line_for label (some error) info = refl
temp_lines-line_for label (some error) warn = refl
temp_lines-line_for label (some error) error = refl
temp_lines-line_for label (some error) critical = refl
temp_lines-line_for label (some critical) info = refl
temp_lines-line_for label (some critical) warn = refl
temp_lines-line_for label (some critical) error = refl
temp_lines-line_for label (some critical) critical = refl

-- What one sensor alone would have logged: the levels it had, from the level before.
unfoldable pub told : String → Option Level → List Level → List Line
unfolding line_for
told label prev [] = []
told label prev (l ∷ ls) = line_for label prev l ++ told label (some l) ls

abbrev pub last_level : Option Level → List Level → Option Level
last_level prev [] = prev
last_level prev (l ∷ ls) = last_level (some l) ls

-- A sensor that is gone in a sweep is forgotten.
abbrev pub before_sweep : Option Level → List Level → Option Level
before_sweep prev [] = none
before_sweep prev (l ∷ ls) = prev

unfoldable pub told_all : String → Option Level → List (List Level) → List Line
unfolding told
told_all label prev [] = []
told_all label prev (own ∷ sweeps) =
    told label (before_sweep prev own) own
    ++ told_all label (last_level (before_sweep prev own) own) sweeps

module _ (f : F32) where
  open f use {Value}

  -- The levels of the sensor's own readings in a sweep.
  abbrev pub own_levels : TemperatureConfig Value → String → List (Reading Value) → List Level
  own_levels cfg label [] = []
  own_levels cfg label (r ∷ rs) =
      if str_eq r.label label
      then level_at f r.celsius (resolve_temp_threshold cfg r.chip) ∷ own_levels cfg label rs
      else own_levels cfg label rs

  abbrev pub own_sweeps :
      TemperatureConfig Value → String → List (List (Reading Value)) → List (List Level)
  own_sweeps cfg label [] = []
  own_sweeps cfg label (rs ∷ sweeps) = own_levels cfg label rs ∷ own_sweeps cfg label sweeps

  -- The log of a history of sweeps.
  unfoldable pub run_temps :
      TemperatureConfig Value
      → List (String × TempState Value)
      → List (List (Reading Value))
      → List Line
  unfolding check_temps
  run_temps cfg temps [] = []
  run_temps cfg temps (rs ∷ sweeps) =
      let (temps', lines) = check_temps f cfg temps rs in lines ++ run_temps cfg temps' sweeps

  abbrev pub prev_level : String → List (String × TempState Value) → Option Level
  prev_level label temps = level_of_state (lookup str_eq label temps)

  note_temp_own :
      (j label chip : String) (c : Value) (limits : Value × Value)
      (temps : List (String × TempState Value))
      → j ≡ label
      → let (noted, lines) = note_temp f temps j chip c limits in
        (lines_about label lines ≡ temp_lines label (prev_level label temps) (level_at f c limits))
        × (prev_level label noted ≡ some (level_at f c limits))
  unfolding note_temp
  note_temp_own j label chip c limits temps e =
      subst
        (λ x.
          (lines_about x (temp_lines j (prev_level j temps) (level_at f c limits))
            ≡ temp_lines x (prev_level x temps) (level_at f c limits))
          × (prev_level x (
                insert str_eq j (record { level = level_at f c limits; chip = chip; celsius = c })
                  temps)
              ≡ some (level_at f c limits)))
        e
        (
          own_temp_lines j (prev_level j temps) (level_at f c limits),
          ap level_of_state (lookup-insert_self str_eq eq_iff j _ temps),
        )

  note_temp_other :
      (j label chip : String) (c : Value) (limits : Value × Value)
      (temps : List (String × TempState Value))
      → str_eq j label ≡ false
      → let (noted, lines) = note_temp f temps j chip c limits in
        (lines_about label lines ≡ []) × (prev_level label noted ≡ prev_level label temps)
  unfolding note_temp
  note_temp_other j label chip c limits temps off = (
    other_temp_lines j label (prev_level j temps) (level_at f c limits) off,
    ap level_of_state (lookup-insert_ne str_eq eq_iff j label _ temps off),
  )

  note_temps-told :
      (cfg : TemperatureConfig Value) (label : String) (temps : List (String × TempState Value))
      (rs : List (Reading Value))
      → let (noted, lines) = note_temps f cfg temps rs in
        (lines_about label lines ≡ told label (prev_level label temps) (own_levels cfg label rs))
        × (prev_level label noted ≡ last_level (prev_level label temps) (own_levels cfg label rs))
  unfolding note_temps told
  note_temps-told cfg label temps [] = (refl, refl)
  note_temps-told cfg label temps (r ∷ rs) =
      let limits = resolve_temp_threshold cfg r.chip in
      let (noted, lines) = note_temp f temps r.label r.chip r.celsius limits in
      let (rest_lines, rest_prev) = note_temps-told cfg label noted rs in
      let split = lines_about-append label lines (note_temps f cfg noted rs).1 in
      elim (Bool-cases (str_eq r.label label)) [
        | inl on ↦
            let (here, prev) =
              note_temp_own r.label label r.chip r.celsius limits temps
                ((eq_iff r.label label).0 on) in
            rw on (
              split
                  ∙ ap (λ (a : List Line). a ++ lines_about label (note_temps f cfg noted rs).1)
                      (here
                        ∙ temp_lines-line_for label (prev_level label temps)
                            (level_at f r.celsius limits))
                  ∙ ap
                      (λ (b : List Line).
                        line_for label (prev_level label temps) (level_at f r.celsius limits) ++ b)
                      (rest_lines ∙ ap (λ p. told label p (own_levels cfg label rs)) prev),
              rest_prev ∙ ap (λ p. last_level p (own_levels cfg label rs)) prev,
            )
        | inr off ↦
            let (here, prev) = note_temp_other r.label label r.chip r.celsius limits temps off in
            rw off (
              split
                  ∙ ap (λ (a : List Line). a ++ lines_about label (note_temps f cfg noted rs).1)
                      here
                  ∙ rest_lines
                  ∙ ap (λ p. told label p (own_levels cfg label rs)) prev,
              rest_prev ∙ ap (λ p. last_level p (own_levels cfg label rs)) prev,
            )
      ]

  gone_unread :
      (cfg : TemperatureConfig Value) (label : String) (rs : List (Reading Value))
      → is_connected f rs label ≡ false
      → own_levels cfg label rs ≡ []
  gone_unread cfg label [] h = refl
  gone_unread cfg label (r ∷ rs) h =
      if-cases (λ x. x ≡ []) (str_eq r.label label)
        (λ on. absurd (true≢false (sym (ap (λ b. b || is_connected f rs label) on) ∙ h)))
        (λ off. gone_unread cfg label rs (sym (ap (λ b. b || is_connected f rs label) off) ∙ h))

  connected_read :
      (cfg : TemperatureConfig Value) (label : String) (prev : Option Level)
      (rs : List (Reading Value))
      → is_connected f rs label ≡ true
      → before_sweep prev (own_levels cfg label rs) ≡ prev
  connected_read cfg label prev [] h = absurd (true≢false (sym h))
  connected_read cfg label prev (r ∷ rs) h =
      if-cases (λ x. before_sweep prev x ≡ prev) (str_eq r.label label) (λ on. refl)
        (λ off.
          connected_read cfg label prev rs (sym (ap (λ b. b || is_connected f rs label) off) ∙ h))

  retained_prev :
      (cfg : TemperatureConfig Value) (label : String) (temps : List (String × TempState Value))
      (rs : List (Reading Value))
      → prev_level label (retain str_eq (is_connected f rs) temps)
        ≡ before_sweep (prev_level label temps) (own_levels cfg label rs)
  retained_prev cfg label temps rs = elim (Bool-cases (is_connected f rs label)) [
    | inl there ↦
        ap level_of_state (lookup-retain_kept str_eq eq_iff (is_connected f rs) label temps there)
        ∙ sym (connected_read cfg label (prev_level label temps) rs there)
    | inr gone ↦
        ap level_of_state (lookup-retain_gone str_eq eq_iff (is_connected f rs) label temps gone)
        ∙ sym (ap (before_sweep (prev_level label temps)) (gone_unread cfg label rs gone))
  ]

  -- Over any history of sweeps, what is logged of a sensor is what its own readings alone tell: a line
  -- when its level becomes warning or critical, none while it stays, one when it is back to normal after
  -- either, none for a first level that is normal, and a sensor missing from a sweep starts anew. No other sensor adds to it, hides it or delays it.
  pub run_temps-told_all :
      (cfg : TemperatureConfig Value) (label : String) (temps : List (String × TempState Value))
      (sweeps : List (List (Reading Value)))
      → lines_about label (run_temps cfg temps sweeps)
        ≡ told_all label (prev_level label temps) (own_sweeps cfg label sweeps)
  unfolding run_temps told_all check_temps
  run_temps-told_all cfg label temps [] = refl
  run_temps-told_all cfg label temps (rs ∷ sweeps) =
      let kept = retain str_eq (is_connected f rs) temps in
      let own = own_levels cfg label rs in
      let (noted, lines) = note_temps f cfg kept rs in
      let (here, last) = note_temps-told cfg label kept rs in
      let before = retained_prev cfg label temps rs in
      lines_about-append label lines (run_temps cfg noted sweeps)
      ∙ ap (λ (a : List Line). a ++ lines_about label (run_temps cfg noted sweeps))
          (here ∙ ap (λ p. told label p own) before)
      ∙ ap (λ (b : List Line). told label (before_sweep (prev_level label temps) own) own ++ b)
          (run_temps-told_all cfg label noted sweeps
            ∙ ap (λ p. told_all label p (own_sweeps cfg label sweeps))
                (last ∙ ap (λ p. last_level p own) before))
