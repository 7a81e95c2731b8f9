-- ===== src/Lcm/Link/Acks.antt =====
-- `send_and_ack`: how it ends, after the frames that it read.
use truenas_asustor_chassisd.Base.{
  ℕ, zero, suc, ◌+◌, ◌-◌, ◌≤◌, ◌<◌, ◌≡◌, refl, sym, ap, ◌∙◌, ◌⊎◌, inl, inr, Bool, Option, none,
  some, List, [], ◌∷◌, ◌++◌, ltb, leb, length, arith, Bool-cases, if-cases, ==_iff, ◌==◌, ltb→lt,
  leb→le,
}
use mathlib.Core.List.{cons≢nil}
use mathlib.Core.Bool.{true≢false}
use mathlib.Core.Option.{none-ne-some}
use mathlib.Core.Path.{subst}
use truenas_asustor_chassisd.Lcm.Frame.{Frame, is_unsolicited}
use truenas_asustor_chassisd.Lcm.Port.{Outcome, ok, err, diverged, Lcm, send, ack, read_frame}
use truenas_asustor_chassisd.Lcm.Port.Writing.{SameLink}
use truenas_asustor_chassisd.Lcm.Port.Reading.{read_frame_uses}
use truenas_asustor_chassisd.Lcm.Link.{
  Wait, done, more, answers, is_zero_status, on_frame, wait_turn, await_ack, earliest_ack,
  send_and_ack,
}
use truenas_asustor_chassisd.Lcm.Link.Hearing.{
  unsolicited, Waited, Waited-trans, Answers, answers_iff, Heard, no_frame, too_early, asked,
  unrelated, Answered, timed_out, unanswered, accepted, rejected, ack-SameLink, send-SameLink,
  send-ne-diverged, Answered-Kept,
}

module _ (deadline earliest subcmd : ℕ) (l : Lcm) where
  -- What a turn of the wait leads to, from the link `m`.
  abbrev Turned : Lcm → Wait → Type 0
  Turned m (done b n) = (fs : List Frame) × Answered deadline earliest subcmd l fs b n
  Turned m (more n) =
      ((fs : List Frame) × Heard deadline earliest subcmd l fs n)
      × (length n.script < length m.script)

  answered-Turned :
      {fs : List Frame} (f : Frame) (m n : Lcm)
      → Heard deadline earliest subcmd l fs m
      → m.clock < deadline
      → read_frame m (deadline - m.clock) ≡ (some f, n)
      → Answers subcmd f
      → earliest ≤ n.clock - n.tx_started
      → Turned m (done (is_zero_status f.payload) n)
  answered-Turned {fs} f m n h time read ours late = go f.payload refl
    where
      go : (bs : List ℕ) → f.payload ≡ bs → Turned m (done (is_zero_status bs) n)
      go [] e = (fs, rejected h time read ours late (λ more k. absurd (cons≢nil (sym k ∙ e))))
      go (b ∷ bs) e = elim (Bool-cases (b == 0)) [
        | inl nil ↦
            let status : f.payload ≡ 0 ∷ bs = e ∙ ap (λ x. x ∷ bs) ((==_iff b 0).0 nil) in
            rw nil (fs, accepted h time read ours late status)
        | inr other ↦ rw other (
          fs,
          rejected h time read ours late (λ more k.
              let nil : b ≡ 0 = cc in absurd (true≢false (sym ((==_iff b 0).1 nil) ∙ other))),
        )
      ]

  on_frame-Turned :
      {fs : List Frame} (m n : Lcm) (o : Option Frame)
      → Heard deadline earliest subcmd l fs m
      → m.clock < deadline
      → read_frame m (deadline - m.clock) ≡ (o, n)
      → (o ≡ none) ⊎ (length n.script < length m.script)
      → Turned m (on_frame earliest subcmd o n)
  unfolding on_frame
  on_frame-Turned {fs} m n none h time read used = (fs, unanswered h read)
  on_frame-Turned {fs} m n (some f) h time read (inl e) = absurd (none-ne-some _ (sym e))
  on_frame-Turned {fs} m n (some f) h time read (inr used) =
      if-cases (Turned m) (answers subcmd f)
        (λ ours.
          let echo = (answers_iff subcmd f).0 ours in
          if-cases (Turned m) (ltb (n.clock - n.tx_started) earliest)
            (λ early. ((fs ++ f ∷ [], too_early h time read echo (ltb→lt _ _ early)), used))
            (λ late. answered-Turned f m n h time read echo (ground arith)))
        (λ theirs.
          if-cases (Turned m) (is_unsolicited f)
            (λ own.
              let (same, fewer) = ack-SameLink n f.subcmd in
              (
                (
                  fs ++ f ∷ [],
                  subst
                      (λ (p : List Frame).
                        Heard deadline earliest subcmd l (fs ++ f ∷ [])
                          (record ((ack n f.subcmd).1) { pending = p ++ f ∷ [] }))
                      (sym same.0) (asked h time read own),
                ),
                omega (arith, fewer, used),
              ))
            (λ quiet. (
              (
                fs ++ f ∷ [],
                unrelated h time read
                    (λ echo. true≢false (sym ((answers_iff subcmd f).1 echo) ∙ theirs)) quiet,
              ),
              used,
            )))

  wait_turn-Turned :
      {fs : List Frame} (m : Lcm)
      → Heard deadline earliest subcmd l fs m
      → Turned m (wait_turn deadline earliest subcmd m)
  unfolding wait_turn
  wait_turn-Turned {fs} m h =
      if-cases (Turned m) (leb deadline m.clock)
        (λ over. (fs, timed_out h (leb→le deadline m.clock over)))
        (λ early.
          let time : m.clock < deadline = ground arith in
          on_frame-Turned m _ _ h time refl
            (read_frame_uses m (deadline - m.clock) (omega (arith, time))))

  -- How the wait ends.
  abbrev Awaited : Outcome Bool × Lcm → Type 0
  Awaited (ok b, n) = (fs : List Frame) × Answered deadline earliest subcmd l fs b n
  Awaited (err x, n) = ⊥
  Awaited (diverged, n) = ⊥

  await_ack-Awaited :
      {fs : List Frame} (fuel : ℕ) (m : Lcm)
      → length m.script < fuel
      → Heard deadline earliest subcmd l fs m
      → Awaited (await_ack fuel deadline earliest subcmd m)
  unfolding await_ack
  await_ack-Awaited zero m fueled h = elim fueled [ ]
  await_ack-Awaited (suc fuel) m fueled h =
      go (wait_turn deadline earliest subcmd m) (wait_turn-Turned m h)
        (λ fs n lower heard. await_ack-Awaited {fs = fs} fuel n lower heard)
    where
      go :
          (w : Wait)
          → Turned m w
          → ((fs : List Frame) (n : Lcm)
              → length n.script < fuel
              → Heard deadline earliest subcmd l fs n
              → Awaited (await_ack fuel deadline earliest subcmd n))
          → Awaited (elim w [
            | done acked l' ↦ (ok acked, l')
            | more l' ↦ await_ack fuel deadline earliest subcmd l'
          ])
      go (done b n) ended rec = ended
      go (more n) ((next, heard), fewer) rec = rec next n (omega arith) heard

-- How the whole call ends, from the link `l`, when the send comes to `sent`. An error is the send's. Else
-- the wait ends after some frames, with the caches and counts as they were and with the queue longer by
-- those frames that the panel sent of itself.
abbrev pub Ended : ℕ → ℕ → ℕ → Lcm → Outcome (Unit {0}) × Lcm → Outcome Bool × Lcm → Type 0
Ended timeout earliest subcmd l (sent, l') (ok b, m) =
    Waited l m
    × (sent ≡ ok tt)
    × ((fs : List Frame) × Answered (l'.clock + timeout) earliest subcmd l' fs b m
        × (m.pending ≡ l.pending ++ unsolicited fs))
Ended timeout earliest subcmd l (sent, l') (err x, m) =
    Waited l m × (sent ≡ err x) × (m ≡ l') × (m.pending ≡ l.pending)
Ended timeout earliest subcmd l (sent, l') (diverged, m) = ⊥

-- Sending and waiting always comes to an end within its fuel. It fails only as the send does. Otherwise the
-- link has read some frames in turn, acknowledging each one that the panel sent of itself, and the
-- queue has grown by exactly those, in order, so that no key press is lost; the text and display caches
-- and the counts are untouched. It reports success only if the frame read next, before the deadline,
-- is a whole one that echoes the command, not sooner than an answer to this command can arrive, and its
-- status is 0; else it reports that the deadline passed, no frame came, or such an answer had another
-- status.
pub send_and_ack-Ended :
    (l : Lcm) (opcode subcmd : ℕ) (payload : List ℕ) (timeout : ℕ)
    → Ended timeout
        (earliest_ack payload)
        subcmd
        l
        (send l opcode subcmd payload)
        (send_and_ack l opcode subcmd payload timeout)
unfolding send_and_ack
send_and_ack-Ended l opcode subcmd payload timeout = go (send l opcode subcmd payload).0 refl
  where
    m : Lcm
    m = (send l opcode subcmd payload).1

    deadline : ℕ
    deadline = m.clock + timeout

    same : SameLink l m
    same = send-SameLink l opcode subcmd payload

    waited : Waited l m
    waited = (same.1, same.2, same.3, same.5)

    settle :
        (r : Outcome Bool × Lcm)
        → Awaited deadline (earliest_ack payload) subcmd m r
        → Ended timeout (earliest_ack payload) subcmd l (ok tt, m) r
    settle (ok b, n) (fs, answered) =
        let (w, queued) = Answered-Kept deadline (earliest_ack payload) subcmd m answered in
        (
          Waited-trans l m n waited w,
          refl,
          (fs, answered, queued ∙ ap (λ p. p ++ unsolicited fs) same.0),
        )
    settle (err x, n) h = elim h [ ]
    settle (diverged, n) h = elim h [ ]

    go :
        (r : Outcome (Unit {0}))
        → (send l opcode subcmd payload).0 ≡ r
        → Ended timeout
            (earliest_ack payload)
            subcmd
            l
            (r, m)
            (elim r [
              | ok _ ↦
                  await_ack
                    (suc (length m.script))
                    (m.clock + timeout)
                    (earliest_ack payload)
                    subcmd
                    m
              | err x ↦ (err x, m)
              | diverged ↦ (diverged, m)
            ])
    go (ok u) e = settle _ (
        await_ack-Awaited deadline (earliest_ack payload) subcmd m (suc (length m.script)) m
          (omega arith) no_frame)
    go (err x) e = (waited, refl, refl, same.0)
    go diverged e = absurd (send-ne-diverged l opcode subcmd payload e)
