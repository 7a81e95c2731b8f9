-- ===== src/Config/Tests.antt =====
-- Checks of a configuration at concrete values.
use truenas_asustor_chassisd.Base.{◌≡◌, refl, true, false, [], ◌∷◌, codes}
use truenas_asustor_chassisd.Template.{placeholders, placeholders_in}
use truenas_asustor_chassisd.Power.Rules.{parse_hhmm}
use truenas_asustor_chassisd.Config.{
  CpuLimits, pl2_below_pl1, tau_out_of_range, limit_problems, cpu_problems, clamp_to, network,
  pools, hdd, temperature, docker, order_from, effective_order, TemplatesConfig, default_templates,
  unknown_variable, line_problem, check_template, validate_templates, sleep_contains,
}
use truenas_asustor_chassisd.Config.Templates.{AllKnown, validate_templates-AllKnown}
use truenas_asustor_chassisd.Config.Ordering.{occurrences, effective_order-once}

abbrev sensible : CpuLimits
sensible = record { pl1_w = 10; pl2_w = 15; tau_secs = 28 }

abbrev twisted : CpuLimits
twisted = record { pl1_w = 15; pl2_w = 10; tau_secs = 0 }

finds_two :
    cpu_problems sensible twisted 10 60
    ≡ pl2_below_pl1 (codes "stock_") twisted ∷ tau_out_of_range (codes "stock_") twisted ∷ []
unfolding cpu_problems limit_problems
finds_two = refl

clamps : clamp_to 90000 86400 ≡ (86400, true)
unfolding clamp_to
clamps = refl

fills_order :
    effective_order (hdd ∷ network ∷ hdd ∷ []) ≡ hdd ∷ network ∷ pools ∷ temperature ∷ docker ∷ []
unfolding effective_order order_from
fills_order = refl

-- The fan screen has no variable for a temperature.
abbrev mistaken : TemplatesConfig
mistaken = record default_templates {
  fan = record { line0 = codes "FAN {{}}"; line1 = codes "{rpm} {temp}" };
  cpu = record { line0 = codes "CPU {{}}"; line1 = codes "{temp}" };
}

replaces_one : validate_templates mistaken ≡ (
  record mistaken { fan = default_templates.fan },
  (codes "fan", unknown_variable (codes "temp")) ∷ [],
)
unfolding validate_templates check_template line_problem placeholders placeholders_in
replaces_one = refl

wraps : sleep_contains (codes "22:00") (codes "06:30") (6, 29) ≡ true
unfolding sleep_contains parse_hhmm
wraps = refl

ends : sleep_contains (codes "22:00") (codes "06:30") (6, 30) ≡ false
unfolding sleep_contains parse_hhmm
ends = refl

validate_templates-AllKnown_example : AllKnown (validate_templates mistaken).0
validate_templates-AllKnown_example = validate_templates-AllKnown mistaken

effective_order-once_example : occurrences hdd (effective_order (hdd ∷ network ∷ hdd ∷ [])) ≡ 1
effective_order-once_example = effective_order-once (hdd ∷ network ∷ hdd ∷ []) hdd
