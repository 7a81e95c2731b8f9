-- ===== src/Lcm/Link/Hearing.antt =====
-- The frames that `send_and_ack` reads while it waits, and what they leave of the link.
use truenas_asustor_chassisd.Base.{
  ℕ, ◌-◌, ◌≤◌, ◌<◌, ◌≡◌, ◌≢◌, refl, sym, ap, ◌∙◌, Bool, true, false, Option, none, some, List, [],
  ◌∷◌, ◌++◌, length, arith, if-cases, ◌↔◌, if◌then◌else◌,
}
use mathlib.Core.List.{append_assoc, append-nil}
use mathlib.Core.Path.{subst}
use truenas_asustor_chassisd.Lcm.Frame.{Frame, op_ack, is_unsolicited}
use truenas_asustor_chassisd.Lcm.Port.{diverged, Lcm, write_timeout, send, ack, read_frame}
use truenas_asustor_chassisd.Lcm.Port.Writing.{
  SameLink, send_within-SameLink, send_within-ne-diverged,
}
use truenas_asustor_chassisd.Lcm.Port.Reading.{read_frame-SameSent}
use truenas_asustor_chassisd.Lcm.Link.{answers}

-- The frames that the panel sends of itself, key presses among them.
abbrev pub unsolicited : List Frame → List Frame
unsolicited [] = []
unsolicited (f ∷ fs) = if is_unsolicited f then f ∷ unsolicited fs else unsolicited fs

unsolicited-append :
    (fs gs : List Frame) → unsolicited (fs ++ gs) ≡ unsolicited fs ++ unsolicited gs
unsolicited-append [] gs = refl
unsolicited-append (f ∷ fs) gs =
    if-cases
      (λ xs.
        (if is_unsolicited f then f ∷ unsolicited (fs ++ gs) else unsolicited (fs ++ gs))
        ≡ xs ++ unsolicited gs)
      (is_unsolicited f) (λ asked. rw (asked, unsolicited-append fs gs) refl)
      (λ other. rw (other, unsolicited-append fs gs) refl)

-- What waiting leaves: the caches and the counts.
abbrev pub Waited : Lcm → Lcm → Type 0
Waited l m =
    (m.last_sent_0 ≡ l.last_sent_0)
    × (m.last_sent_1 ≡ l.last_sent_1)
    × (m.display_on ≡ l.display_on)
    × (m.stats ≡ l.stats)

pub Waited-trans : (l m n : Lcm) → Waited l m → Waited m n → Waited l n
Waited-trans l m n h k = (k.0 ∙ h.0, k.1 ∙ h.1, k.2 ∙ h.2, k.3 ∙ h.3)

pub ack-SameLink :
    (l : Lcm) (subcmd : ℕ)
    → SameLink l (ack l subcmd).1 × (length ((ack l subcmd).1.script) ≤ length l.script)
unfolding ack
ack-SameLink l subcmd = send_within-SameLink l op_ack subcmd (0 ∷ []) write_timeout

pub send-SameLink :
    (l : Lcm) (opcode subcmd : ℕ) (payload : List ℕ) → SameLink l (send l opcode subcmd payload).1
unfolding send
send-SameLink l opcode subcmd payload =
    (send_within-SameLink l opcode subcmd payload write_timeout).0

pub send-ne-diverged :
    (l : Lcm) (opcode subcmd : ℕ) (payload : List ℕ) → (send l opcode subcmd payload).0 ≢ diverged
unfolding send
send-ne-diverged l opcode subcmd payload =
    send_within-ne-diverged l opcode subcmd payload write_timeout

-- A whole frame that echoes the command.
abbrev pub Answers : ℕ → Frame → Type 0
Answers subcmd f = (f.checksum_ok ≡ true) × (f.opcode ≡ op_ack) × (f.subcmd ≡ subcmd)

pub answers_iff : (subcmd : ℕ) (f : Frame) → (answers subcmd f ≡ true) ↔ Answers subcmd f
answers_iff subcmd f = (λ h. (ground arith, ground arith, ground arith), λ h. ground arith)

-- The frames read while waiting from `l` on, in order, and the link after them. Each was read before the
-- deadline and was no answer, or one too early to be the answer to this command; one that the panel
-- sent of itself was acknowledged and queued.
pub data Heard (deadline earliest subcmd : ℕ) (l : Lcm) : List Frame → Lcm → Type 0 where
  no_frame : Heard deadline earliest subcmd l [] l
  too_early :
      {fs : List Frame} {f : Frame} {m n : Lcm}
      → Heard deadline earliest subcmd l fs m
      → m.clock < deadline
      → read_frame m (deadline - m.clock) ≡ (some f, n)
      → Answers subcmd f
      → n.clock - n.tx_started < earliest
      → Heard deadline earliest subcmd l (fs ++ f ∷ []) n
  asked :
      {fs : List Frame} {f : Frame} {m n : Lcm}
      → Heard deadline earliest subcmd l fs m
      → m.clock < deadline
      → read_frame m (deadline - m.clock) ≡ (some f, n)
      → is_unsolicited f ≡ true
      → Heard deadline earliest subcmd l
          (fs ++ f ∷ [])
          (record ((ack n f.subcmd).1) { pending = n.pending ++ f ∷ [] })
  unrelated :
      {fs : List Frame} {f : Frame} {m n : Lcm}
      → Heard deadline earliest subcmd l fs m
      → m.clock < deadline
      → read_frame m (deadline - m.clock) ≡ (some f, n)
      → ¬ (Answers subcmd f)
      → is_unsolicited f ≡ false
      → Heard deadline earliest subcmd l (fs ++ f ∷ []) n

-- How the wait ends after these frames: at the deadline, without a further frame in time, or with an
-- answer that is not too early. It is a success only if that answer's status is 0.
pub data Answered (deadline earliest subcmd : ℕ) (l : Lcm) : List Frame → Bool → Lcm → Type 0 where
  timed_out :
      {fs : List Frame} {m : Lcm}
      → Heard deadline earliest subcmd l fs m
      → deadline ≤ m.clock
      → Answered deadline earliest subcmd l fs false m
  unanswered :
      {fs : List Frame} {m n : Lcm}
      → Heard deadline earliest subcmd l fs m
      → read_frame m (deadline - m.clock) ≡ (none, n)
      → Answered deadline earliest subcmd l fs false n
  accepted :
      {fs : List Frame} {f : Frame} {m n : Lcm} {more : List ℕ}
      → Heard deadline earliest subcmd l fs m
      → m.clock < deadline
      → read_frame m (deadline - m.clock) ≡ (some f, n)
      → Answers subcmd f
      → earliest ≤ n.clock - n.tx_started
      → f.payload ≡ 0 ∷ more
      → Answered deadline earliest subcmd l fs true n
  rejected :
      {fs : List Frame} {f : Frame} {m n : Lcm}
      → Heard deadline earliest subcmd l fs m
      → m.clock < deadline
      → read_frame m (deadline - m.clock) ≡ (some f, n)
      → Answers subcmd f
      → earliest ≤ n.clock - n.tx_started
      → ((more : List ℕ) → f.payload ≢ 0 ∷ more)
      → Answered deadline earliest subcmd l fs false n

-- The link after a read: the caches and counts, and the queue.
read_Waited :
    (m n : Lcm) (timeout : ℕ) (o : Option Frame)
    → read_frame m timeout ≡ (o, n)
    → Waited m n × (n.pending ≡ m.pending)
read_Waited m n timeout o e =
    subst (λ (r : Option Frame × Lcm). Waited m r.1 × (r.1.pending ≡ m.pending)) e
      (let same = read_frame-SameSent m timeout in ((same.1, same.2, same.3, same.4), same.0))

-- The caches and counts stay, and the queue grows by the frames that the panel sent of itself.
abbrev pub Kept : Lcm → List Frame → Lcm → Type 0
Kept l fs m = Waited l m × (m.pending ≡ l.pending ++ unsolicited fs)

Kept-unsolicited :
    (l m n : Lcm) (fs : List Frame) (f : Frame) (new : List Frame)
    → Kept l fs m
    → Waited m n
    → n.pending ≡ m.pending ++ new
    → unsolicited (f ∷ []) ≡ new
    → Kept l (fs ++ f ∷ []) n
Kept-unsolicited l m n fs f new h w queued e = (
  Waited-trans l m n h.0 w,
  queued
      ∙ ap (λ p. p ++ new) h.1
      ∙ append_assoc l.pending (unsolicited fs) new
      ∙ ap (λ p. l.pending ++ p)
          (sym (unsolicited-append fs (f ∷ []) ∙ ap (λ p. unsolicited fs ++ p) e)),
)

ack_not_asked : (f : Frame) → f.opcode ≡ op_ack → is_unsolicited f ≡ false
unfolding is_unsolicited
ack_not_asked f e = ground arith

module _ (deadline earliest subcmd : ℕ) (l : Lcm) where
  Heard-Kept : {fs : List Frame} {m : Lcm} → Heard deadline earliest subcmd l fs m → Kept l fs m
  Heard-Kept no_frame = ((refl, refl, refl, refl), sym (append-nil _))
  Heard-Kept (too_early {fs} {f} {m} {n} h time read ours early) =
      let (w, p) = read_Waited m n (deadline - m.clock) (some f) read in
      Kept-unsolicited l m n fs f [] (Heard-Kept h) w (p ∙ sym (append-nil _))
        (rw (ack_not_asked f (ours.1)) refl)
  Heard-Kept (asked {fs} {f} {m} {n} h time read own) =
      let (w, p) = read_Waited m n (deadline - m.clock) (some f) read in
      let same = (ack-SameLink n f.subcmd).0 in
      let n' = record ((ack n f.subcmd).1) { pending = n.pending ++ f ∷ [] } in
      Kept-unsolicited l m n' fs f (f ∷ []) (Heard-Kept h)
        (Waited-trans m n n' w (same.1, same.2, same.3, same.5)) (ap (λ q. q ++ f ∷ []) p)
        (rw own refl)
  Heard-Kept (unrelated {fs} {f} {m} {n} h time read theirs quiet) =
      let (w, p) = read_Waited m n (deadline - m.clock) (some f) read in
      Kept-unsolicited l m n fs f [] (Heard-Kept h) w (p ∙ sym (append-nil _)) (rw quiet refl)

  after_read :
      (fs : List Frame) (m n : Lcm) (o : Option Frame)
      → Kept l fs m
      → read_frame m (deadline - m.clock) ≡ (o, n)
      → Kept l fs n
  after_read fs m n o h read =
      let (w, p) = read_Waited m n (deadline - m.clock) o read in
      (Waited-trans l m n h.0 w, p ∙ h.1)

  pub Answered-Kept :
      {fs : List Frame} {b : Bool} {m : Lcm}
      → Answered deadline earliest subcmd l fs b m
      → Kept l fs m
  Answered-Kept (timed_out h over) = Heard-Kept h
  Answered-Kept (unanswered {m = m} {n = n} h read) = after_read _ m n none (Heard-Kept h) read
  Answered-Kept (accepted {f = f} {m = m} {n = n} h time read ours late status) =
      after_read _ m n (some f) (Heard-Kept h) read
  Answered-Kept (rejected {f = f} {m = m} {n = n} h time read ours late status) =
      after_read _ m n (some f) (Heard-Kept h) read
