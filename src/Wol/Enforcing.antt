-- ===== src/Wol/Enforcing.antt =====
-- src/wol.rs, `enforce_one`: what each outcome says of the NIC.
use Prim.Native.String.{String}
use truenas_asustor_chassisd.Base.{
  ℕ, ◌≡◌, ◌≢◌, refl, ◌⊎◌, inl, inr, false, not, ◌==◌, arith, if-cases, ==_iff,
}
use truenas_asustor_chassisd.Wol.{
  WolInfo, Outcome, unchanged, applied, failed, Answer, answered, refused, missing, set_and_check,
  enforce_one,
}

-- Unchanged: it was read to be as wanted. Applied: it was read to be otherwise, supports all that is
-- wanted, took the change, and was read back to be as wanted. Failed: it could not be read, or was read
-- to be otherwise.
abbrev pub Enforced : ℕ → Answer WolInfo → Answer Unit → Answer WolInfo → Outcome → Type 0
Enforced want before set_answer after unchanged =
    (info : WolInfo) × (before ≡ answered info) × (info.enabled ≡ want)
Enforced want before set_answer after (applied was) =
    (info : WolInfo) × (info' : WolInfo) × (before ≡ answered info)
    × (info.enabled ≡ was)
    × (was ≢ want)
    × (missing want info.supported ≡ 0)
    × (set_answer ≡ answered tt)
    × (after ≡ answered info')
    × (info'.enabled ≡ want)
Enforced want before set_answer after (failed p) =
    ((e : String) × (before ≡ refused e))
    ⊎ ((info : WolInfo) × (before ≡ answered info) × (info.enabled ≢ want))

-- Whatever the driver answers: the NIC is reported as set or unchanged only when it was read to be so,
-- and as set only if it was read to be otherwise before and supports all that is wanted.
pub enforce_one-Enforced :
    (want : ℕ) (before : Answer WolInfo) (set_answer : Answer Unit) (after : Answer WolInfo)
    → Enforced want before set_answer after (enforce_one want before set_answer after)
unfolding enforce_one
enforce_one-Enforced want (refused e) set_answer after = inl (e, refl)
enforce_one-Enforced want (answered info) set_answer after =
    if-cases (Enforced want (answered info) set_answer after) (info.enabled == want)
      (λ same. (info, refl, (==_iff info.enabled want).0 same))
      (λ other.
        if-cases (Enforced want (answered info) set_answer after)
          (not (missing want info.supported == 0)) (λ lacks. inr (info, refl, differs other))
          (λ able. checked set_answer after (differs other) (supports able)))
  where
    differs : (info.enabled == want) ≡ false → info.enabled ≢ want
    differs e = ground arith

    supports : not (missing want info.supported == 0) ≡ false → missing want info.supported ≡ 0
    supports e = all_there (missing want info.supported) e
      where
        all_there : (n : ℕ) → not (n == 0) ≡ false → n ≡ 0
        all_there n h = ground arith

    checked :
        (set_answer : Answer Unit) (after : Answer WolInfo)
        → info.enabled ≢ want
        → missing want info.supported ≡ 0
        → Enforced want
            (answered info)
            set_answer
            after
            (set_and_check want info.enabled set_answer after)
    checked (refused e) after other able = inr (info, refl, other)
    checked (answered tt) (refused e) other able = inr (info, refl, other)
    checked (answered tt) (answered info') other able =
        if-cases (Enforced want (answered info) (answered tt) (answered info'))
          (info'.enabled == want)
          (λ kept.
            (info, info', refl, refl, other, able, refl, refl, (==_iff info'.enabled want).0 kept))
          (λ lost. inr (info, refl, other))
