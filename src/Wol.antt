-- ===== src/Wol.antt =====
-- src/wol.rs: Wake-on-LAN modes, bringing one NIC to the configured mode, and what is logged of it. The
-- ioctls' answers are arguments.
pub mod Modes
pub mod Logging
pub mod Enforcing
mod Tests
use Prim.Native.Nat.{bit_and, bit_or}
use Prim.Native.String.{String}
use text.Mathlib.Text.{◌==◌ as str_eq}
use truenas_asustor_chassisd.Base.{
  ℕ, ◌-◌, Bool, true, false, not, ◌&&◌, ◌||◌, Option, none, some, List, [], ◌∷◌, ◌++◌, map, leb,
  ◌==◌, if◌then◌else◌, Text, same_text,
}

-- `FLAG_LETTERS`, in `ethtool`'s order, with the `WAKE_*` bits.
abbrev pub flag_letters : List (ℕ × ℕ)
flag_letters =
    (b'p', 1)
    ∷ (b'u', 2)
    ∷ (b'm', 4)
    ∷ (b'b', 8)
    ∷ (b'a', 16)
    ∷ (b'g', 32)
    ∷ (b's', 64)
    ∷ (b'f', 128)
    ∷ []

abbrev pub recheck_interval : ℕ
recheck_interval = 60_000_000_000

-- `Result<u32, String>`: the text that is refused, or its character.
pub data ParsedMode : Type 0 where
  parsed : ℕ → ParsedMode
  empty_mode : ParsedMode
  unsupported : ℕ → ParsedMode

abbrev pub find_bit : ℕ → List (ℕ × ℕ) → Option ℕ
find_bit c [] = none
find_bit c ((l, bit) ∷ more) = if l == c then some bit else find_bit c more

-- `s` and `f` are letters, but not accepted.
abbrev pub accepted_bit : ℕ → Option ℕ
accepted_bit c = if (c == b's') || (c == b'f') then none else find_bit c flag_letters

unfoldable pub parse_letters : ℕ → Text → ParsedMode
parse_letters bits [] = parsed bits
parse_letters bits (c ∷ more) = elim (accepted_bit c) [
  | some bit ↦ parse_letters (bit_or bits bit) more
  | none ↦ unsupported c
]

abbrev pub is_off : Text → Bool
is_off (c ∷ []) = c == b'd'
is_off _ = false

unfoldable pub parse_mode : Text → ParsedMode
unfolding parse_letters
parse_mode [] = empty_mode
parse_mode (c ∷ more) = if is_off (c ∷ more) then parsed 0 else parse_letters 0 (c ∷ more)

abbrev pub letters_of : ℕ → List (ℕ × ℕ) → Text
letters_of bits [] = []
letters_of bits ((l, bit) ∷ more) =
    let rest = letters_of bits more in if bit_and bits bit == 0 then rest else l ∷ rest

unfoldable pub format_mode : ℕ → Text
format_mode bits = if bits == 0 then b'd' ∷ [] else letters_of bits flag_letters

pub record WolInfo : Type 0 where
  pub supported : ℕ
  pub enabled : ℕ

pub data Problem : Type 0 where
  read_failed set_failed read_back_failed : String → Problem
  not_supported : ℕ → ℕ → Problem
  not_kept : ℕ → Problem

pub data Outcome : Type 0 where
  unchanged : Outcome
  applied : ℕ → Outcome
  failed : Problem → Outcome

pub data Answer (A : Type 0) : Type 0 where
  answered : A → Answer A
  refused : String → Answer A

-- `want & !supported`, of 32 bits.
abbrev pub missing : ℕ → ℕ → ℕ
missing want supported = bit_and want (4_294_967_295 - supported)

abbrev pub read_back : ℕ → ℕ → Answer WolInfo → Outcome
read_back want was (refused e) = failed (read_back_failed e)
read_back want was (answered after) =
    if after.enabled == want then applied was else failed (not_kept after.enabled)

abbrev pub set_and_check : ℕ → ℕ → Answer Unit → Answer WolInfo → Outcome
set_and_check want was (refused e) after = failed (set_failed e)
set_and_check want was (answered u) after = read_back want was after

-- The answers are those of the first `get`, of `set` and of the second `get`.
unfoldable pub enforce_one : ℕ → Answer WolInfo → Answer Unit → Answer WolInfo → Outcome
enforce_one want (refused e) set_answer after = failed (read_failed e)
enforce_one want (answered info) set_answer after =
    if info.enabled == want
    then unchanged
    else if not (missing want info.supported == 0)
    then failed (not_supported (missing want info.supported) info.supported)
    else set_and_check want info.enabled set_answer after

-- `==` on two problems' texts, which name modes as `format_mode` does.
unfoldable pub same_problem : Problem → Problem → Bool
unfolding format_mode
same_problem (read_failed e) (read_failed e') = str_eq e e'
same_problem (set_failed e) (set_failed e') = str_eq e e'
same_problem (read_back_failed e) (read_back_failed e') = str_eq e e'
same_problem (not_supported a b) (not_supported a' b') =
    same_text (format_mode a) (format_mode a') && same_text (format_mode b) (format_mode b')
same_problem (not_kept a) (not_kept a') = same_text (format_mode a) (format_mode a')
same_problem _ _ = false

-- What `log` writes to the system log, by its level and meaning.
pub data LogLine : Type 0 where
  could_not_set : String → Problem → LogLine
  normal_again : String → LogLine
  set_first : String → ℕ → LogLine
  re_applied : String → ℕ → LogLine

pub record WolKeeper : Type 0 where
  pub nics : List String
  pub want : ℕ
  pub last_check : Option ℕ
  pub applied_to : List String
  pub problems : List (String × Problem)

-- `HashMap<String, String>`, keyed by the interface.
unfoldable pub get : String → List (String × Problem) → Option Problem
get k [] = none
get k ((j, v) ∷ m) = if str_eq j k then some v else get k m

abbrev pub put : String → Problem → List (String × Problem) → List (String × Problem)
put k v m = (k, v) ∷ m

unfoldable pub remove : String → List (String × Problem) → List (String × Problem)
remove k [] = []
remove k ((j, v) ∷ m) = let rest = remove k m in if str_eq j k then rest else (j, v) ∷ rest

unfoldable pub contains : String → List String → Bool
contains k [] = false
contains k (j ∷ js) = str_eq j k || contains k js

unfoldable pub is_same : Option Problem → Problem → Bool
unfolding same_problem
is_same none p = false
is_same (some q) p = same_problem q p

abbrev pub recovery : String → Option Problem → List LogLine
recovery iface none = []
recovery iface (some p) = normal_again iface ∷ []

abbrev pub change : Bool → String → Outcome → List LogLine
change first iface (applied was) =
    (if first then set_first iface was else re_applied iface was) ∷ []
change first iface unchanged = []
change first iface (failed p) = []

-- The end of `log`, for an interface that is as configured.
unfoldable pub log_fine : WolKeeper → String → Outcome → WolKeeper × List LogLine
unfolding remove contains get
log_fine k iface o = (
  record k {
    problems = remove iface k.problems;
    applied_to = if contains iface k.applied_to then k.applied_to else iface ∷ k.applied_to;
  },
  recovery iface (get iface k.problems) ++ change (not (contains iface k.applied_to)) iface o,
)

unfoldable pub log : WolKeeper → String → Outcome → WolKeeper × List LogLine
unfolding is_same get log_fine
log k iface (failed p) =
    if is_same (get iface k.problems) p
    then (k, [])
    else (record k { problems = put iface p k.problems }, could_not_set iface p ∷ [])
log k iface unchanged = log_fine k iface unchanged
log k iface (applied was) = log_fine k iface (applied was)

-- `enforce` over the interfaces, each with the outcome that its ioctls lead to.
unfoldable pub log_all : WolKeeper → List (String × Outcome) → WolKeeper × List LogLine
unfolding log
log_all k [] = (k, [])
log_all k ((iface, o) ∷ os) =
    let (k', lines) = log k iface o in let (k'', more) = log_all k' os in (k'', lines ++ more)

abbrev pub check_due : Option ℕ → ℕ → Bool
check_due none now = true
check_due (some t) now = leb recheck_interval (now - t)

unfoldable pub maybe_enforce : WolKeeper → ℕ → (String → Outcome) → WolKeeper × List LogLine
unfolding log_all
maybe_enforce k now outcome =
    if check_due k.last_check now
    then log_all (record k { last_check = some now }) (map (λ iface. (iface, outcome iface)) k.nics)
    else (k, [])

abbrev pub keeper_for : List String → ParsedMode → WolKeeper
keeper_for nics (parsed want) = record {
  nics = nics;
  want = want;
  last_check = none;
  applied_to = [];
  problems = [];
}
keeper_for nics _ = record {
  nics = [];
  want = 0;
  last_check = none;
  applied_to = [];
  problems = [];
}

unfoldable pub new_keeper : List String → Text → WolKeeper
unfolding parse_mode
new_keeper nics mode = keeper_for nics (parse_mode mode)
