-- ===== src/Fan/Sensing.antt =====
-- src/fan.rs: what the controller makes of its sensors over time: which of them holds the fan at full
-- speed, and when a critical temperature does.
use truenas_asustor_chassisd.Base.{
  ◌≢◌, ℕ, ◌-◌, ◌≤◌, ◌≡◌, refl, sym, ap, ◌∙◌, ◌⊎◌, inl, inr, ◌↔◌, Bool, true, false, ◌&&◌, ◌||◌,
  Option, none, some, List, [], ◌∷◌, leb, if◌then◌else◌, arith, Bool-cases, Option-cases, if-cases,
  leb→le,
}
use mathlib.Core.Path.{subst}
use mathlib.Core.Bool.{false≢true}
use mathlib.Core.Option.{none-ne-some}
use truenas_asustor_chassisd.Float.{F32}
use truenas_asustor_chassisd.Fan.{
  Timing, SensorFeed, FanController, current, since_or, steady, feed_reads, long_lost, feed_silent,
  track_feed, any_hot, all_cool, update_critical_override, aimed,
}

module _ (f : F32) where
  -- The critical override after a history of readings, the latest first.
  unfoldable pub aimed_after :
      FanController (f.Value)
      → List (List (SensorFeed (f.Value) × f.Value))
      → FanController (f.Value)
  aimed_after c [] = c
  aimed_after c (rs ∷ h) = (aimed f (aimed_after c h) rs).0

  -- No reading at all, or one that is not below its warning threshold.
  abbrev NotCool : List (SensorFeed (f.Value) × f.Value) → Type 0
  NotCool [] = Unit
  NotCool (r ∷ rs) = all_cool f (r ∷ rs) ≡ false

  -- A sensor was critical, and since then not all of them were below their warning thresholds.
  abbrev pub Latched :
      FanController (f.Value) → List (List (SensorFeed (f.Value) × f.Value)) → Type 0
  Latched c [] = c.critical_override ≡ true
  Latched c (rs ∷ h) = (any_hot f rs ≡ true) ⊎ (NotCool rs × Latched c h)

  override_iff :
      (b : Bool) (rs : List (SensorFeed (f.Value) × f.Value))
      → (update_critical_override f b rs ≡ true)
        ↔ ((any_hot f rs ≡ true) ⊎ ((all_cool f rs ≡ false) × (b ≡ true)))
  unfolding update_critical_override
  override_iff b rs = go b (any_hot f rs) (all_cool f rs)
    where
      go :
          (b hot cool : Bool)
          → ((if hot then true else if b && cool then false else b) ≡ true)
            ↔ ((hot ≡ true) ⊎ ((cool ≡ false) × (b ≡ true)))
      go b true cool = (λ e. inl refl, λ h. refl)
      go true false true =
          (λ e. absurd (false≢true e), λ h. elim h [ inl e ↦ e | inr (e, e') ↦ sym e ])
      go true false false = (λ e. inr (refl, refl), λ h. refl)
      go false false cool =
          (λ e. absurd (false≢true e), λ h. elim h [ inl e ↦ e | inr (e, e') ↦ e' ])

  -- After any history of readings, the override is on exactly when, since it was last seen on or a
  -- sensor was critical, there was no sample in which every sensor was below its warning threshold.
  pub aimed_after-Latched :
      (c : FanController (f.Value)) (h : List (List (SensorFeed (f.Value) × f.Value)))
      → ((aimed_after c h).critical_override ≡ true) ↔ Latched c h
  unfolding aimed_after aimed
  aimed_after-Latched c [] = (λ e. e, λ e. e)
  aimed_after-Latched c ([] ∷ h) =
      let (to, from) = aimed_after-Latched c h in
      (
        λ e. inr (tt, to e),
        λ l. elim l [ inl hot ↦ absurd (false≢true hot) | inr (nothing, before) ↦ from before ],
      )
  aimed_after-Latched c ((r ∷ rs) ∷ h) =
      let (to, from) = aimed_after-Latched c h in
      let (on, off) = override_iff (aimed_after c h).critical_override (r ∷ rs) in
      (
        λ e. elim (on e) [ inl hot ↦ inl hot | inr (warm, before) ↦ inr (warm, to before) ],
        λ l. elim l [
          | inl hot ↦ off (inl hot)
          | inr (warm, before) ↦ off (inr (warm, from before))
        ],
      )

  -- One selector over its samples, the latest first: the sample, and when it was looked at.
  abbrev pub Samples : Type 0
  Samples = List ((Option ℕ × Option (f.Value)) × ℕ)

  abbrev sampled : SensorFeed (f.Value) → Option ℕ × Option (f.Value) → SensorFeed (f.Value)
  sampled s (at, v) = record s { sample_at = at; sample_value = v }

  unfoldable pub feed_after : Timing → SensorFeed (f.Value) → Samples → SensorFeed (f.Value)
  feed_after tm s [] = s
  feed_after tm s ((x, now) ∷ h) = track_feed f tm now (sampled (feed_after tm s h) x)

  -- Whether the selector had a reading: the sample then, unless it is missing or stale.
  unfoldable pub reading :
      SensorFeed (f.Value) → (Option ℕ × Option (f.Value)) × ℕ → Option (f.Value)
  unfolding current
  reading s (x, now) = current f (sampled s x) now

  -- The latest sample had a reading.
  abbrev ReadLast : Timing → SensorFeed (f.Value) → Samples → Type 0
  ReadLast tm s [] = ⊥
  ReadLast tm s (x ∷ h) = reading (feed_after tm s h) x ≢ none

  -- Silent at every sample from the time `t` on, the first of them, which came after one with a reading.
  abbrev SilentFrom : Timing → SensorFeed (f.Value) → ℕ → Samples → Type 0
  SilentFrom tm s t [] = ⊥
  SilentFrom tm s t ((x, now) ∷ h) =
      (reading (feed_after tm s h) (x, now) ≡ none)
      × (((now ≡ t) × ReadLast tm s h) ⊎ SilentFrom tm s t h)

  -- A reading at every sample from the time `t` on, the first of them.
  abbrev ReadsFrom : Timing → SensorFeed (f.Value) → ℕ → Samples → Type 0
  ReadsFrom tm s t [] = ⊥
  ReadsFrom tm s t ((x, now) ∷ h) =
      (reading (feed_after tm s h) (x, now) ≢ none) × ((now ≡ t) ⊎ ReadsFrom tm s t h)

  module _ (tm : Timing) (s : SensorFeed (f.Value)) where
    track_silent :
        (now : ℕ) → current f s now ≡ none → track_feed f tm now s ≡ feed_silent f tm now s
    unfolding track_feed
    track_silent now quiet = rw (quiet, track_feed) refl

    track_reads : (now : ℕ) → current f s now ≢ none → track_feed f tm now s ≡ feed_reads f tm now s
    unfolding track_feed
    track_reads now reads = elim (Option-cases (current f s now)) [
      | inl quiet ↦ absurd (reads quiet)
      | inr (v, here) ↦ rw (here, track_feed) refl
    ]

  -- A reading ends the silence.
  feed_reads-Fresh :
      (tm : Timing) (now : ℕ) (s : SensorFeed (f.Value))
      → ((feed_reads f tm now s).lost_since ≡ none) × ((feed_reads f tm now s).ever_read ≡ true)
  feed_reads-Fresh tm now s =
      if-cases (λ (t : SensorFeed (f.Value)). (t.lost_since ≡ none) × (t.ever_read ≡ true)) s.held
        (λ held.
          if-cases (λ (t : SensorFeed (f.Value)). (t.lost_since ≡ none) × (t.ever_read ≡ true))
            (steady f tm now s) (λ e. (refl, refl)) (λ e. (refl, refl)))
        (λ free. (refl, refl))

  ReadLast-Fresh :
      (tm : Timing) (s : SensorFeed (f.Value)) (h : Samples)
      → ReadLast tm s h
      → ((feed_after tm s h).lost_since ≡ none) × ((feed_after tm s h).ever_read ≡ true)
  unfolding feed_after reading
  ReadLast-Fresh tm s [] never = absurd never
  ReadLast-Fresh tm s ((x, now) ∷ h) reads =
      subst (λ (t : SensorFeed (f.Value)). (t.lost_since ≡ none) × (t.ever_read ≡ true))
        (sym (track_reads tm (sampled (feed_after tm s h) x) now reads))
        (feed_reads-Fresh tm now (sampled (feed_after tm s h) x))

  -- What a stretch of silence that began at `t` leaves.
  abbrev Counting : Timing → ℕ → ℕ → SensorFeed (f.Value) → Type 0
  Counting tm t now s =
      (s.lost_since ≡ some t)
      × (s.ever_read ≡ true)
      × ((leb tm.sensor_loss_grace (now - t) ≡ false) ⊎ (s.held ≡ true))

  silent-Counting :
      (tm : Timing) (t now : ℕ) (s : SensorFeed (f.Value))
      → s.ever_read ≡ true
      → since_or s.lost_since now ≡ t
      → Counting tm t now (feed_silent f tm now s)
  silent-Counting tm t now s ever since =
      subst (Counting tm t now) (sym (ap (λ b. if b then after else s) ever))
        (ap (λ n. some n) since, ever, held s.held)
    where
      after : SensorFeed (f.Value)
      after = record s {
        back_since = none;
        lost_since = some (since_or s.lost_since now);
        held = s.held || long_lost f tm now s;
      }

      held :
          (b : Bool)
          → (leb tm.sensor_loss_grace (now - t) ≡ false) ⊎ ((b || long_lost f tm now s) ≡ true)
      held true = inr refl
      held false = elim (Bool-cases (leb tm.sensor_loss_grace (now - t))) [
        | inr short ↦ inl short
        | inl long ↦ inr (rw since long)
      ]

  SilentFrom-Counting :
      (tm : Timing) (s : SensorFeed (f.Value)) (t now : ℕ) (x : Option ℕ × Option (f.Value))
      (h : Samples)
      → SilentFrom tm s t ((x, now) ∷ h)
      → Counting tm t now (feed_after tm s ((x, now) ∷ h))
  unfolding feed_after reading
  SilentFrom-Counting tm s t now x h (quiet, inl (first, reads)) =
      let here = sampled (feed_after tm s h) x in
      let (fresh, ever) = ReadLast-Fresh tm s h reads in
      subst (Counting tm t now) (sym (track_silent tm here now quiet))
        (silent-Counting tm t now here ever (ap (λ o. since_or o now) fresh ∙ first))
  SilentFrom-Counting tm s t now x [] (quiet, inr never) = absurd never
  SilentFrom-Counting tm s t now x ((y, n) ∷ h) (quiet, inr from) =
      let here = sampled (feed_after tm s ((y, n) ∷ h)) x in
      let (since, ever, held) = SilentFrom-Counting tm s t n y h from in
      subst (Counting tm t now) (sym (track_silent tm here now quiet))
        (silent-Counting tm t now here ever (ap (λ o. since_or o now) since))

  -- A selector that has been silent since `t`, after it read, holds the fan as soon as the grace is
  -- over, whatever went before.
  pub silent-Held :
      (tm : Timing) (s : SensorFeed (f.Value)) (t now : ℕ) (x : Option ℕ × Option (f.Value))
      (h : Samples)
      → SilentFrom tm s t ((x, now) ∷ h)
      → tm.sensor_loss_grace ≤ now - t
      → (feed_after tm s ((x, now) ∷ h)).held ≡ true
  silent-Held tm s t now x h from long =
      let (since, ever, held) = SilentFrom-Counting tm s t now x h from in
      elim held [ inl short ↦ absurd (false≢true (sym short ∙ late)) | inr on ↦ on ]
    where
      late : leb tm.sensor_loss_grace (now - t) ≡ true
      late = ground arith

  -- What is remembered of the readings since the fan was held: a time that they reach back to.
  abbrev BackOk : Timing → SensorFeed (f.Value) → Samples → SensorFeed (f.Value) → Type 0
  BackOk tm s h t =
      (t.back_since ≡ none) ⊎ ((since : ℕ) × (t.back_since ≡ some since) × ReadsFrom tm s since h)

  ReadsFrom-ReadLast :
      (tm : Timing) (s : SensorFeed (f.Value)) (t : ℕ) (h : Samples)
      → ReadsFrom tm s t h
      → ReadLast tm s h
  ReadsFrom-ReadLast tm s t [] never = never
  ReadsFrom-ReadLast tm s t ((x, now) ∷ h) (reads, from) = reads

  since-ReadsFrom :
      (tm : Timing) (s : SensorFeed (f.Value)) (x : Option ℕ × Option (f.Value)) (now : ℕ)
      (h : Samples)
      → reading (feed_after tm s h) (x, now) ≢ none
      → BackOk tm s h (feed_after tm s h)
      → ReadsFrom tm s (since_or (feed_after tm s h).back_since now) ((x, now) ∷ h)
  since-ReadsFrom tm s x now h reads (inl never) =
      (reads, inl (ap (λ o. since_or o now) (sym never)))
  since-ReadsFrom tm s x now h reads (inr (t, since, from)) =
      (reads, inr (subst (λ o. ReadsFrom tm s (since_or o now) h) (sym since) from))

  reads-BackOk :
      (tm : Timing) (s : SensorFeed (f.Value)) (x : Option ℕ × Option (f.Value)) (now : ℕ)
      (h : Samples)
      → reading (feed_after tm s h) (x, now) ≢ none
      → BackOk tm s h (feed_after tm s h)
      → BackOk tm s ((x, now) ∷ h) (feed_reads f tm now (sampled (feed_after tm s h) x))
  reads-BackOk tm s x now h reads ok =
      let here = sampled (feed_after tm s h) x in
      if-cases (BackOk tm s ((x, now) ∷ h)) here.held
        (λ held.
          if-cases (BackOk tm s ((x, now) ∷ h)) (steady f tm now here) (λ long. inl refl)
            (λ short.
              inr (since_or here.back_since now, refl, since-ReadsFrom tm s x now h reads ok)))
        (λ free. elim ok [
          | inl never ↦ inl never
          | inr (t, since, from) ↦ inr (t, since, (reads, inr from))
        ])

  silent-BackOk :
      (tm : Timing) (s : SensorFeed (f.Value)) (x : Option ℕ × Option (f.Value)) (now : ℕ)
      (h : Samples)
      → BackOk tm s h (feed_after tm s h)
      → BackOk tm s ((x, now) ∷ h) (feed_silent f tm now (sampled (feed_after tm s h) x))
  silent-BackOk tm s x now h ok =
      let here = sampled (feed_after tm s h) x in
      if-cases (BackOk tm s ((x, now) ∷ h)) here.ever_read (λ ever. inl refl)
        (λ new. elim ok [
          | inl never ↦ inl never
          | inr (t, since, from) ↦
              let (fresh, ever) = ReadLast-Fresh tm s h (ReadsFrom-ReadLast tm s t h from) in
              absurd (false≢true (sym new ∙ ever))
        ])

  feed_after-BackOk :
      (tm : Timing) (s : SensorFeed (f.Value)) (h : Samples)
      → s.back_since ≡ none
      → BackOk tm s h (feed_after tm s h)
  unfolding feed_after reading
  feed_after-BackOk tm s [] e = inl e
  feed_after-BackOk tm s ((x, now) ∷ h) e =
      let ok = feed_after-BackOk tm s h e in
      let here = sampled (feed_after tm s h) x in
      elim (Option-cases (current f here now)) [
        | inl quiet ↦
            subst (BackOk tm s ((x, now) ∷ h)) (sym (track_silent tm here now quiet))
              (silent-BackOk tm s x now h ok)
        | inr (v, read) ↦
            let reads : current f here now ≢ none = λ q. none-ne-some v (sym q ∙ read) in
            subst (BackOk tm s ((x, now) ∷ h)) (sym (track_reads tm here now reads))
              (reads-BackOk tm s x now h reads ok)
      ]

  -- The fan is still held, or its selector reads steadily.
  abbrev pub Released : Timing → SensorFeed (f.Value) → Samples → SensorFeed (f.Value) → Type 0
  Released tm s [] t = ⊥
  Released tm s ((x, now) ∷ h) t =
      (t.held ≡ true)
      ⊎ ((since : ℕ) × ReadsFrom tm s since ((x, now) ∷ h)
          × (tm.sensor_recovery_hold ≤ now - since))

  -- A selector that starts with no memory of readings stops holding the fan only at the end of a stretch of samples that all had a reading,
  -- the last one among them, and that reaches back at least the recovery hold.
  pub held-Released :
      (tm : Timing) (s : SensorFeed (f.Value)) (x : Option ℕ × Option (f.Value)) (now : ℕ)
      (h : Samples)
      → s.back_since ≡ none
      → (feed_after tm s h).held ≡ true
      → Released tm s ((x, now) ∷ h) (feed_after tm s ((x, now) ∷ h))
  unfolding feed_after reading
  held-Released tm s x now h e held =
      let ok = feed_after-BackOk tm s h e in
      let here = sampled (feed_after tm s h) x in
      elim (Option-cases (current f here now)) [
        | inl quiet ↦ subst (Released tm s ((x, now) ∷ h)) (sym (track_silent tm here now quiet)) (
            if-cases (Released tm s ((x, now) ∷ h)) here.ever_read
              (λ ever. inl (ap (λ b. b || long_lost f tm now here) held)) (λ new. inl held))
        | inr (v, read) ↦
            let reads : current f here now ≢ none = λ q. none-ne-some v (sym q ∙ read) in
            subst (Released tm s ((x, now) ∷ h)) (sym (track_reads tm here now reads)) (
              if-cases (Released tm s ((x, now) ∷ h)) here.held
                (λ holds.
                  if-cases (Released tm s ((x, now) ∷ h)) (steady f tm now here)
                    (λ long. inr (
                      since_or here.back_since now,
                      since-ReadsFrom tm s x now h reads ok,
                      leb→le tm.sensor_recovery_hold (now - since_or here.back_since now) long,
                    ))
                    (λ short. inl held))
                (λ free. absurd (false≢true (sym free ∙ held))))
      ]
