-- ===== src/Config.antt =====
-- src/config.rs, the checks on a loaded configuration: `CpuPowerConfig::problems`, `clamp_bounds`,
-- `TemplatesConfig::validate`, `effective_order` and `SleepConfig::contains`. A message is a value.
mod Templates
mod Ordering
mod Tests
use truenas_asustor_chassisd.Base.{
  ℕ, ◌+◌, ◌*◌, ◌^◌, Bool, true, false, not, ◌&&◌, ◌||◌, Option, none, some, List, [], ◌∷◌, ◌++◌,
  ltb, leb, ◌==◌, if◌then◌else◌, Text, codes, one_of,
}
use truenas_asustor_chassisd.Template.{TemplateError, names, malformed, placeholders}
use truenas_asustor_chassisd.Power.Rules.{parse_hhmm}

abbrev pub max_cpu_power_w : ℕ
max_cpu_power_w = 100

abbrev pub max_cpu_tau_secs : ℕ
max_cpu_tau_secs = 3600

-- One set of limits, as configured.
pub record CpuLimits : Type 0 where
  pub pl1_w : ℕ
  pub pl2_w : ℕ
  pub tau_secs : ℕ

pub data CpuProblem : Type 0 where
  power_out_of_range pl2_below_pl1 tau_out_of_range : Text → CpuLimits → CpuProblem
  check_secs_out_of_range rearm_too_long : ℕ → CpuProblem

abbrev pub within : ℕ → ℕ → ℕ → Bool
within low high n = leb low n && leb n high

-- A turn of the loop of `problems`.
unfoldable pub limit_problems : Text → CpuLimits → List CpuProblem
limit_problems name l =
    (if not (within 1 max_cpu_power_w l.pl1_w) || not (within 1 max_cpu_power_w l.pl2_w)
      then power_out_of_range name l ∷ []
      else if ltb l.pl2_w l.pl1_w
      then pl2_below_pl1 name l ∷ []
      else [])
    ++ (if not (within 1 max_cpu_tau_secs l.tau_secs) then tau_out_of_range name l ∷ [] else [])

abbrev pub max_secs : ℕ
max_secs = 86400

unfoldable pub cpu_problems : CpuLimits → CpuLimits → ℕ → ℕ → List CpuProblem
unfolding limit_problems
cpu_problems configured stock check_secs rearm_secs =
    limit_problems (codes "") configured
    ++ (limit_problems (codes "stock_") stock
        ++ ((if not (within 1 60 check_secs) then check_secs_out_of_range check_secs ∷ [] else [])
            ++ (if ltb max_secs rearm_secs then rearm_too_long rearm_secs ∷ [] else [])))

-- The value, and whether that changed it.
unfoldable pub clamp_to : ℕ → ℕ → ℕ × Bool
clamp_to value max = if ltb max value then (max, true) else (value, false)

pub data Category : Type 0 where
  network pools hdd temperature docker : Category

abbrev pub category_code : Category → ℕ
category_code network = 0
category_code pools = 1
category_code hdd = 2
category_code temperature = 3
category_code docker = 4

abbrev pub all_categories : List Category
all_categories = network ∷ pools ∷ hdd ∷ temperature ∷ docker ∷ []

abbrev pub has_category : List Category → Category → Bool
has_category [] c = false
has_category (d ∷ out) c = (category_code d == category_code c) || has_category out c

-- The loop of `effective_order`.
unfoldable pub order_from : List Category → List Category → List Category
order_from out [] = out
order_from out (c ∷ rest) = order_from (if has_category out c then out else out ++ (c ∷ [])) rest

unfoldable pub effective_order : List Category → List Category
unfolding order_from
effective_order order = order_from [] (order ++ all_categories)

pub record ScreenTemplate : Type 0 where
  pub line0 : Text
  pub line1 : Text

pub record TemplatesConfig : Type 0 where
  pub network : ScreenTemplate
  pub pool : ScreenTemplate
  pub hdd : ScreenTemplate
  pub cpu : ScreenTemplate
  pub fan : ScreenTemplate
  pub docker : ScreenTemplate

abbrev pub default_templates : TemplatesConfig
default_templates = record {
  network = record { line0 = codes "{iface}"; line1 = codes "{ip_or_status}" };
  pool = record { line0 = codes "{name}: {health}"; line1 = codes "{alloc}/{size} {cap}" };
  hdd = record { line0 = codes "{label}"; line1 = codes "{status} {temp}" };
  cpu = record { line0 = codes "CPU"; line1 = codes "{temp}{unit}{warn}" };
  fan = record { line0 = codes "FAN"; line1 = codes "{rpm} RPM" };
  docker = record { line0 = codes "DOCKER {name}"; line1 = codes "{status}" };
}

abbrev pub network_vars : List Text
network_vars = codes "iface" ∷ codes "ip" ∷ codes "link" ∷ codes "ip_or_status" ∷ []

abbrev pub pool_vars : List Text
pool_vars =
    codes "name" ∷ codes "size" ∷ codes "alloc" ∷ codes "free" ∷ codes "cap" ∷ codes "health" ∷ []

abbrev pub hdd_vars : List Text
hdd_vars = codes "label" ∷ codes "bay" ∷ codes "dev" ∷ codes "status" ∷ codes "temp" ∷ []

abbrev pub cpu_vars : List Text
cpu_vars = codes "temp" ∷ codes "unit" ∷ codes "warn" ∷ []

abbrev pub fan_vars : List Text
fan_vars = codes "rpm" ∷ []

abbrev pub docker_vars : List Text
docker_vars = codes "name" ∷ codes "status" ∷ []

pub data LineProblem : Type 0 where
  bad_template : TemplateError → LineProblem
  unknown_variable : Text → LineProblem

abbrev pub first_unknown : List Text → List Text → Option LineProblem
first_unknown vars [] = none
first_unknown vars (n ∷ ns) =
    if one_of n vars then first_unknown vars ns else some (unknown_variable n)

unfoldable pub line_problem : List Text → Text → Option LineProblem
unfolding placeholders
line_problem vars line = elim (placeholders line) [
  | malformed e ↦ some (bad_template e)
  | names ns ↦ first_unknown vars ns
]

abbrev pub or_else : Option LineProblem → Option LineProblem → Option LineProblem
or_else none o = o
or_else (some p) o = some p

-- The closure `check`: the template to use, and the problem that replaced it.
unfoldable pub check_template :
    ScreenTemplate → ScreenTemplate → List Text → ScreenTemplate × Option LineProblem
unfolding line_problem
check_template tpl default vars =
    let problem = or_else (line_problem vars tpl.line0) (line_problem vars tpl.line1) in
    (elim problem [ none ↦ tpl | some p ↦ default ], problem)

-- The message that a replacement adds.
abbrev pub reported : Text → Option LineProblem → List (Text × LineProblem)
reported kind none = []
reported kind (some p) = (kind, p) ∷ []

unfoldable pub validate_templates : TemplatesConfig → TemplatesConfig × List (Text × LineProblem)
unfolding check_template
validate_templates t =
    let d = default_templates in
    let (n, pn) = check_template t.network d.network network_vars in
    let (p, pp) = check_template t.pool d.pool pool_vars in
    let (h, ph) = check_template t.hdd d.hdd hdd_vars in
    let (c, pc) = check_template t.cpu d.cpu cpu_vars in
    let (f, pf) = check_template t.fan d.fan fan_vars in
    let (k, pk) = check_template t.docker d.docker docker_vars in
    (
      record { network = n; pool = p; hdd = h; cpu = c; fan = f; docker = k },
      reported (codes "network") pn
          ++ (reported (codes "pool") pp
              ++ (reported (codes "hdd") ph
                  ++ (reported (codes "cpu") pc
                      ++ (reported (codes "fan") pf ++ reported (codes "docker") pk)))),
    )

abbrev pub in_window : Option ℕ → Option ℕ → ℕ → Bool
in_window (some start) (some end) now =
    if leb start end then leb start now && ltb now end else leb start now || ltb now end
in_window _ _ now = false

-- Whether an hour and minute is in the sleep window from `start` to `end`.
unfoldable pub sleep_contains : Text → Text → ℕ × ℕ → Bool
unfolding parse_hhmm
sleep_contains start end (hour, minute) =
    in_window (parse_hhmm start) (parse_hhmm end) (hour * 60 + minute)
