-- ===== src/Wol/Logging.antt =====
-- src/wol.rs, `WolKeeper::log`: what is logged of problems and recoveries.
use Prim.Native.String.{String}
use text.Mathlib.Text.{◌==◌ as str_eq}
use text.Mathlib.TextPositions.{eq_refl}
use truenas_asustor_chassisd.Base.{
  ◌≡◌, refl, inl, inr, true, false, none, List, [], if◌then◌else◌, Bool-cases, Text, same_text,
  ==_iff, ◌∷◌,
}
use truenas_asustor_chassisd.Wol.{
  Problem, read_failed, set_failed, read_back_failed, not_supported, not_kept, Outcome, unchanged,
  applied, failed, same_problem, format_mode, LogLine, re_applied, WolKeeper, get, remove, contains,
  is_same, change, log_fine, log,
}

same_text_refl : (t : Text) → same_text t t ≡ true
same_text_refl [] = refl
same_text_refl (c ∷ t) = rw ((==_iff c c).1 refl) (same_text_refl t)

same_problem_refl : (p : Problem) → same_problem p p ≡ true
unfolding same_problem
same_problem_refl (read_failed e) = eq_refl e
same_problem_refl (set_failed e) = eq_refl e
same_problem_refl (read_back_failed e) = eq_refl e
same_problem_refl (not_supported a b) =
    rw (same_text_refl (format_mode a)) (same_text_refl (format_mode b))
same_problem_refl (not_kept a) = same_text_refl (format_mode a)

get-remove : (k : String) (m : List (String × Problem)) → get k (remove k m) ≡ none
unfolding get remove
get-remove k [] = refl
get-remove k ((j, v) ∷ m) = elim (Bool-cases (str_eq j k)) [
  | inl same ↦ rw same (get-remove k m)
  | inr other ↦ rw (other, other) (get-remove k m)
]

-- What a second outcome of the same kind logs, right after the first.
abbrev pub Repeated : String → Outcome → List LogLine → Type 0
Repeated iface (failed p) lines = lines ≡ []
Repeated iface unchanged lines = lines ≡ []
Repeated iface (applied was) lines = lines ≡ re_applied iface was ∷ []

known : (k : String) (js : List String) → contains k (if contains k js then js else k ∷ js) ≡ true
unfolding contains
known k js = elim (Bool-cases (contains k js)) [
  | inl there ↦ rw there there
  | inr new ↦ rw (new, eq_refl k) refl
]

fine-Repeated :
    (k : WolKeeper) (iface : String) (o p : Outcome)
    → (log_fine (log_fine k iface p).0 iface o).1 ≡ change false iface o
unfolding log_fine
fine-Repeated k iface o p = rw (get-remove iface k.problems, known iface k.applied_to) refl

-- The same outcome twice in a row, from any state: a second failure or a second check that finds all
-- as configured logs nothing, and a second application is logged as a reset that was undone.
pub log-Repeated :
    (k : WolKeeper) (iface : String) (o : Outcome)
    → Repeated iface o (log (log k iface o).0 iface o).1
unfolding log get
log-Repeated k iface (failed p) = elim (Bool-cases (is_same (get iface k.problems) p)) [
  | inl same ↦ rw (same, same) refl
  | inr new ↦ rw (new, eq_refl iface, same_problem_refl p) refl
]
log-Repeated k iface unchanged = fine-Repeated k iface unchanged unchanged
log-Repeated k iface (applied was) = fine-Repeated k iface (applied was) (applied was)
