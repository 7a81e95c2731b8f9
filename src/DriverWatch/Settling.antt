-- ===== src/DriverWatch/Settling.antt =====
-- When a change is reported, and which one.
use truenas_asustor_chassisd.Base.{
  ℕ, ◌+◌, ◌≤◌, ◌<◌, ◌≡◌, ◌≢◌, refl, sym, ap, ◌∙◌, ◌⊎◌, inl, inr, ◌↔◌, Bool, true, false, not, ◌&&◌,
  Option, none, some, List, [], ◌∷◌, ltb, arith, Bool-cases,
}
use mathlib.Core.Bool.{and-eq-true_iff, false≢true}
use mathlib.Core.Path.{ap₂, subst}
use truenas_asustor_chassisd.DriverWatch.{
  Snapshot, is_some, present, same_inode, same_core, same_snapshot, Change, appeared, reloaded,
  brightness_led, disappeared, DriverWatch, was_seen, dimmer_change, classify, observe, poll,
  check_interval,
}

same_inode_sound : (i j : Option ℕ) → same_inode i j ≡ true → i ≡ j
same_inode_sound none none h = refl
same_inode_sound none (some j) h = cc
same_inode_sound (some i) none h = cc
same_inode_sound (some i) (some j) h = let e : i ≡ j = ground arith in ap some e

same_inode_refl : (i : Option ℕ) → same_inode i i ≡ true
same_inode_refl none = refl
same_inode_refl (some i) = ground arith

same_core_sound : (is js : List (Option ℕ)) → same_core is js ≡ true → is ≡ js
same_core_sound [] [] h = refl
same_core_sound [] (j ∷ js) h = cc
same_core_sound (i ∷ is) [] h = cc
same_core_sound (i ∷ is) (j ∷ js) h =
    let (here, later) = (and-eq-true_iff (same_inode i j) (same_core is js)).0 h in
    ap₂ (λ a b. a ∷ b) (same_inode_sound i j here) (same_core_sound is js later)

same_core_refl : (is : List (Option ℕ)) → same_core is is ≡ true
same_core_refl [] = refl
same_core_refl (i ∷ is) = rw (same_inode_refl i) (same_core_refl is)

pub same_snapshot_iff : (s t : Snapshot) → (same_snapshot s t ≡ true) ↔ (s ≡ t)
unfolding same_snapshot
same_snapshot_iff s t = (to, from)
  where
    to : same_snapshot s t ≡ true → s ≡ t
    to h =
        let (core, dimmer) =
          (and-eq-true_iff (same_core s.core t.core) (same_inode s.brightness t.brightness)).0 h in
        ap₂ (λ c b. record { core = c; brightness = b }) (same_core_sound s.core t.core core)
          (same_inode_sound s.brightness t.brightness dimmer)

    from : s ≡ t → same_snapshot s t ≡ true
    from e = rw (← e) (rw (same_core_refl s.core) (same_inode_refl s.brightness))

abbrev pub changes : Option Change → List Change → List Change
changes none cs = cs
changes (some c) cs = c ∷ cs

-- Observing snapshots one after another, with the changes reported.
unfoldable pub watch : DriverWatch → List Snapshot → DriverWatch × List Change
watch w [] = (w, [])
watch w (s ∷ ss) = let (w', c) = observe w s in let (w'', cs) = watch w' ss in (w'', changes c cs)

-- The driver's two states, and the changes that lead from one to the other.
abbrev pub Follows : Bool → List Change → Bool → Type 0
Follows there [] end = there ≡ end
Follows there (appeared ∷ cs) end = (there ≡ false) × Follows true cs end
Follows there (disappeared ∷ cs) end = (there ≡ true) × Follows false cs end
Follows there (reloaded ∷ cs) end = (there ≡ true) × Follows true cs end
Follows there (brightness_led ∷ cs) end = Follows there cs end

-- What one observation reports is a step from the old state of the driver to the new one.
abbrev Steps : Bool → Option Change → Bool → Type 0
Steps there none end = there ≡ end
Steps there (some c) end = Follows there (c ∷ []) end

classify-Steps :
    (before after : Snapshot) → Steps (present before) (classify before after) (present after)
unfolding classify
classify-Steps before after = elim (Bool-cases (present before)) [
  | inl old ↦ elim (Bool-cases (present after)) [
    | inl new ↦
        rw (old, new)
          (elim (Bool-cases (same_core before.core after.core)) [
            | inl same ↦ rw same (dimmer true before after)
            | inr other ↦ rw other (refl, refl)
          ])
    | inr gone ↦ rw (old, gone) (refl, refl)
  ]
  | inr absent ↦ elim (Bool-cases (present after)) [
    | inl new ↦ rw (absent, new) (refl, refl)
    | inr gone ↦ rw (absent, gone) (dimmer false before after)
  ]
]
  where
    dimmer : (b : Bool) (s t : Snapshot) → Steps b (dimmer_change s t) b
    dimmer b s t =
        elim (Bool-cases (is_some t.brightness && not (same_inode t.brightness s.brightness))) [
          | inl new ↦ rw new refl
          | inr same ↦ rw same refl
        ]

observe-Steps :
    (w : DriverWatch) (s : Snapshot)
    → Steps (present w.applied) (observe w s).1 (present (observe w s).0.applied)
unfolding observe
observe-Steps w s = elim (Bool-cases (was_seen w.seen s)) [
  | inr fresh ↦ rw fresh refl
  | inl again ↦ elim (Bool-cases (same_snapshot s w.applied)) [
    | inl same ↦ rw (again, same) refl
    | inr other ↦ rw (again, other) (classify-Steps w.applied s)
  ]
]

Follows-step :
    (there mid end : Bool) (c : Option Change) (cs : List Change)
    → Steps there c mid
    → Follows mid cs end
    → Follows there (changes c cs) end
Follows-step there mid end none cs h k = rw h k
Follows-step there mid end (some appeared) cs (h, e) k = (h, rw e k)
Follows-step there mid end (some disappeared) cs (h, e) k = (h, rw e k)
Follows-step there mid end (some reloaded) cs (h, e) k = (h, rw e k)
Follows-step there mid end (some brightness_led) cs h k = rw h k

-- The changes reported over any sequence of snapshots tell the driver's whole story: `Appeared` is
-- only reported of a driver that was away, `Disappeared` and `Reloaded` of one that was there, and
-- after the last of them the driver is there exactly when the snapshot last settled shows it.
pub watch-Follows :
    (w : DriverWatch) (ss : List Snapshot)
    → Follows (present w.applied) (watch w ss).1 (present (watch w ss).0.applied)
unfolding watch
watch-Follows w [] = refl
watch-Follows w (s ∷ ss) =
    Follows-step (present w.applied) (present (observe w s).0.applied) _ (observe w s).1 _
      (observe-Steps w s) (watch-Follows (observe w s).0 ss)

-- No snapshot is seen twice in a row.
abbrev pub NeverTwice : Option Snapshot → List Snapshot → Type 0
NeverTwice seen [] = Unit
NeverTwice seen (s ∷ ss) = (seen ≢ some s) × NeverTwice (some s) ss

observe_fresh :
    (w : DriverWatch) (s : Snapshot)
    → w.seen ≢ some s
    → observe w s ≡ (record w { seen = some s }, none)
unfolding observe
observe_fresh w s h = elim (Bool-cases (was_seen w.seen s)) [
  | inl again ↦ absurd (h (twice w.seen again))
  | inr fresh ↦ rw fresh
]
  where
    twice : (o : Option Snapshot) → was_seen o s ≡ true → o ≡ some s
    twice none e = cc
    twice (some t) e = ap some ((same_snapshot_iff t s).0 e)

-- While the driver is being loaded and every check finds something else, nothing is reported and
-- nothing counts as applied.
pub watch_unsettled :
    (w : DriverWatch) (ss : List Snapshot)
    → NeverTwice w.seen ss
    → ((watch w ss).1 ≡ []) × ((watch w ss).0.applied ≡ w.applied)
unfolding watch
watch_unsettled w [] h = (refl, refl)
watch_unsettled w (s ∷ ss) (fresh, h) =
    let rest = watch_unsettled (record w { seen = some s }) ss h in
    subst (λ r. (changes r.1 (watch r.0 ss).1 ≡ []) × ((watch r.0 ss).0.applied ≡ w.applied))
      (sym (observe_fresh w s fresh)) rest

observe_seen :
    (w : DriverWatch) (s : Snapshot)
    → w.seen ≡ some s
    → ((w.applied ≡ s) × (observe w s ≡ (w, none)))
      ⊎ ((w.applied ≢ s) × (observe w s ≡ (record w { applied = s }, classify w.applied s)))
unfolding observe
observe_seen w s h =
    let again : was_seen w.seen s ≡ true = rw h ((same_snapshot_iff s s).1 refl) in
    elim (Bool-cases (same_snapshot s w.applied)) [
      | inl same ↦ inl (sym ((same_snapshot_iff s w.applied).0 same), rw (again, same))
      | inr other ↦ inr (
        λ e. false≢true (sym other ∙ (same_snapshot_iff s w.applied).1 (sym e)),
        rw (again, other),
      )
    ]

observe_stable :
    (w : DriverWatch) (s : Snapshot) → w.seen ≡ some s → w.applied ≡ s → observe w s ≡ (w, none)
observe_stable w s h e = elim (observe_seen w s h) [
  | inl (same, still) ↦ still
  | inr (other, moved) ↦ absurd (other e)
]

-- Which of two checks that find `s`, the first `a` or the second `b`, reports what.
abbrev pub Reported : Snapshot → Snapshot → Option Change → Option Change → Type 0
Reported before s a b =
    ((before ≡ s) × (a ≡ none) × (b ≡ none))
    ⊎ ((before ≢ s)
        × (((a ≡ classify before s) × (b ≡ none)) ⊎ ((a ≡ none) × (b ≡ classify before s))))

abbrev pub Settled : Snapshot → Snapshot → Option Change → DriverWatch × Option Change → Type 0
Settled before s a (w, b) = Reported before s a b × (w.applied ≡ s) × (observe w s ≡ (w, none))

-- The second of two checks, after a first one that reported nothing.
second-Settled :
    (w : DriverWatch) (s : Snapshot) → w.seen ≡ some s → Settled w.applied s none (observe w s)
second-Settled w s h = elim (observe_seen w s h) [
  | inl (same, still) ↦
      subst (Settled w.applied s none) (sym still) (inl (same, refl, refl), same, still)
  | inr (other, moved) ↦
      subst (Settled w.applied s none) (sym moved)
        (inr (other, inr (refl, refl)), refl, observe_stable (record w { applied = s }) s h refl)
]

was_seen_sound : (o : Option Snapshot) (s : Snapshot) → was_seen o s ≡ true → o ≡ some s
was_seen_sound none s e = cc
was_seen_sound (some t) s e = ap some ((same_snapshot_iff t s).0 e)

-- Two checks in a row that find the same snapshot, from any state: the snapshot is applied, its
-- change from the one applied before (if it is another) is reported by exactly one of the two, and a
-- third check that finds it again changes nothing and reports nothing.
pub observe_twice-Settled :
    (w : DriverWatch) (s : Snapshot)
    → let (w', a) = observe w s in Settled w.applied s a (observe w' s)
observe_twice-Settled w s = elim (Bool-cases (was_seen w.seen s)) [
  | inl again ↦
      let h = was_seen_sound w.seen s again in
      elim (observe_seen w s h) [
        | inl (same, still) ↦
            subst (λ r. Settled w.applied s r.1 (observe r.0 s)) (sym still) (second-Settled w s h)
        | inr (other, moved) ↦
            let there = record w { applied = s } in
            let stable = observe_stable there s h refl in
            subst (λ r. Settled w.applied s r.1 (observe r.0 s)) (sym moved)
              (subst (Settled w.applied s (classify w.applied s)) (sym stable)
                (inr (other, inl (refl, refl)), refl, stable))
      ]
  | inr fresh ↦
      let never : w.seen ≢ some s =
        λ e. false≢true (sym fresh ∙ rw e ((same_snapshot_iff s s).1 refl)) in
      subst (λ r. Settled w.applied s r.1 (observe r.0 s)) (sym (observe_fresh w s never))
        (second-Settled (record w { seen = some s }) s refl)
]

-- Between checks nothing is looked at; a check sets the next one two seconds on.
pub poll_paced :
    (w : DriverWatch) (now : ℕ) (s : Snapshot)
    → ((now < w.next_check) × (poll w now s ≡ (w, none)))
      ⊎ ((w.next_check ≤ now)
          × (poll w now s ≡ observe (record w { next_check = now + check_interval }) s)
          × ((poll w now s).0.next_check ≡ now + check_interval))
unfolding poll
poll_paced w now s = elim (Bool-cases (ltb now w.next_check)) [
  | inl early ↦ inl (ground arith, rw early)
  | inr due ↦
      inr (ground arith, rw due, rw due (kept (record w { next_check = now + check_interval })))
]
  where
    kept : (v : DriverWatch) → (observe v s).0.next_check ≡ v.next_check
    kept v = ground arith
