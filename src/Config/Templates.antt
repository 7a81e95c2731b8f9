-- ===== src/Config/Templates.antt =====
-- src/config.rs, `TemplatesConfig::validate`: what the templates it leaves can name.
use mathlib.Core.Option.{none-ne-some}
use truenas_asustor_chassisd.Base.{
  ◌≡◌, refl, sym, true, Option, none, some, List, [], ◌∷◌, Text, one_of, if-cases,
}
use truenas_asustor_chassisd.Template.{Names, malformed, names, placeholders}
use truenas_asustor_chassisd.Config.{
  LineProblem, bad_template, first_unknown, line_problem, or_else, ScreenTemplate, TemplatesConfig,
  check_template, default_templates, validate_templates, network_vars, pool_vars, hdd_vars,
  cpu_vars, fan_vars, docker_vars,
}

-- Every name is one of the variables.
pub data KnownAll (vars : List Text) : List Text → Type 0 where
  nothing : KnownAll vars []
  another :
      {n : Text} {ns : List Text} → one_of n vars ≡ true → KnownAll vars ns → KnownAll vars (n ∷ ns)

-- Both lines of a template can be filled in from the variables.
abbrev pub LineIsKnown : List Text → Text → Type 0
LineIsKnown vars line = (ns : List Text) × (placeholders line ≡ names ns) × KnownAll vars ns

abbrev pub ScreenIsKnown : List Text → ScreenTemplate → Type 0
ScreenIsKnown vars tpl = LineIsKnown vars tpl.line0 × LineIsKnown vars tpl.line1

abbrev pub AllKnown : TemplatesConfig → Type 0
AllKnown t =
    ScreenIsKnown network_vars t.network
    × ScreenIsKnown pool_vars t.pool
    × ScreenIsKnown hdd_vars t.hdd
    × ScreenIsKnown cpu_vars t.cpu
    × ScreenIsKnown fan_vars t.fan
    × ScreenIsKnown docker_vars t.docker

first_unknown-KnownAll : (vars ns : List Text) → first_unknown vars ns ≡ none → KnownAll vars ns
first_unknown-KnownAll vars [] h = nothing
first_unknown-KnownAll vars (n ∷ ns) h =
    if-cases (λ o. o ≡ none → KnownAll vars (n ∷ ns)) (one_of n vars)
      (λ known rest. another known (first_unknown-KnownAll vars ns rest))
      (λ unknown e. absurd (none-ne-some _ (sym e))) h

line_problem-IsKnown :
    (vars : List Text) (line : Text) → line_problem vars line ≡ none → LineIsKnown vars line
unfolding line_problem
line_problem-IsKnown vars line = read (placeholders line) refl
  where
    read :
        (r : Names)
        → placeholders line ≡ r
        → elim r [ malformed e ↦ some (bad_template e) | names ns ↦ first_unknown vars ns ] ≡ none
        → LineIsKnown vars line
    read (malformed e) found h = absurd (none-ne-some _ (sym h))
    read (names ns) found h = (ns, found, first_unknown-KnownAll vars ns h)

check_template-IsKnown :
    (tpl default : ScreenTemplate) (vars : List Text)
    → ScreenIsKnown vars default
    → ScreenIsKnown vars (check_template tpl default vars).0
unfolding check_template
check_template-IsKnown tpl default vars d =
    settle (line_problem vars tpl.line0) (line_problem vars tpl.line1)
      (line_problem-IsKnown vars tpl.line0) (line_problem-IsKnown vars tpl.line1)
  where
    settle :
        (p q : Option LineProblem)
        → (p ≡ none → LineIsKnown vars tpl.line0)
        → (q ≡ none → LineIsKnown vars tpl.line1)
        → ScreenIsKnown vars (elim (or_else p q) [ none ↦ tpl | some e ↦ default ])
    settle none none f g = (f refl, g refl)
    settle none (some e) f g = d
    settle (some e) q f g = d

default_templates-AllKnown : AllKnown default_templates
unfolding placeholders
default_templates-AllKnown = (
  ((_, refl, another refl nothing), (_, refl, another refl nothing)),
  (
    (_, refl, another refl (another refl nothing)),
    (_, refl, another refl (another refl (another refl nothing))),
  ),
  ((_, refl, another refl nothing), (_, refl, another refl (another refl nothing))),
  ((_, refl, nothing), (_, refl, another refl (another refl (another refl nothing)))),
  ((_, refl, nothing), (_, refl, another refl nothing)),
  ((_, refl, another refl nothing), (_, refl, another refl nothing)),
)

-- Whatever the configured templates are, those in use after the check are well formed, and every placeholder of
-- either line of a screen is one of the variables that this screen provides.
pub validate_templates-AllKnown : (t : TemplatesConfig) → AllKnown (validate_templates t).0
unfolding validate_templates
validate_templates-AllKnown t =
    let (n, p, h, c, f, k) = default_templates-AllKnown in
    let d = default_templates in
    (
      check_template-IsKnown t.network d.network network_vars n,
      check_template-IsKnown t.pool d.pool pool_vars p,
      check_template-IsKnown t.hdd d.hdd hdd_vars h,
      check_template-IsKnown t.cpu d.cpu cpu_vars c,
      check_template-IsKnown t.fan d.fan fan_vars f,
      check_template-IsKnown t.docker d.docker docker_vars k,
    )
