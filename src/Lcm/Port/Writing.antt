-- ===== src/Lcm/Port/Writing.antt =====
-- What `send_within` puts on the wire, and when.
use truenas_asustor_chassisd.Base.{
  ℕ, zero, suc, ◌+◌, ◌≤◌, ◌<◌, ◌≡◌, ◌≢◌, refl, sym, ap, ◌∙◌, ◌⊎◌, inl, inr, none, some, List, [],
  ◌∷◌, ◌++◌, leb, length, take, drop, take-append-drop, arith, Bool-cases, Option-cases,
}
use mathlib.Core.List.{append_assoc, append-nil}
use truenas_asustor_chassisd.Lcm.Frame.{encode}
use truenas_asustor_chassisd.Lcm.Port.{
  Outcome, ok, err, diverged, IoError, write_zero, timed_out, other, Answer, wrote, byte,
  interrupted, would_block, quiet, failed, Event, Lcm, settle, on_write, write_rest, settle_wait,
  send_within,
}

-- The frame went out whole; or the call failed with a part of it gone and a part of it left.
abbrev pub Sent : List ℕ → List ℕ → Outcome (Unit {0}) → List ℕ → Type 0
Sent before frame r after =
    ((r ≡ ok tt) × (after ≡ before ++ frame))
    ⊎ ((x : IoError) × (gone : List ℕ) × (left : List ℕ) × (r ≡ err x)
        × (frame ≡ gone ++ left)
        × (0 < length left)
        × (after ≡ before ++ gone))

-- What `send` leaves alone: the caches, the pending frames, the counts and the last byte's time.
abbrev pub SameLink : Lcm → Lcm → Type 0
SameLink l m =
    (m.pending ≡ l.pending)
    × (m.last_sent_0 ≡ l.last_sent_0)
    × (m.last_sent_1 ≡ l.last_sent_1)
    × (m.display_on ≡ l.display_on)
    × (m.last_rx ≡ l.last_rx)
    × (m.stats ≡ l.stats)

pub SameLink-trans : (l m n : Lcm) → SameLink l m → SameLink m n → SameLink l n
SameLink-trans l m n h k = (k.0 ∙ h.0, k.1 ∙ h.1, k.2 ∙ h.2, k.3 ∙ h.3, k.4 ∙ h.4, k.5 ∙ h.5)

on_write_cases :
    (deadline : ℕ) (e : Event)
    → ((n : ℕ) × (on_write deadline e ≡ ok n)) ⊎ ((x : IoError) × (on_write deadline e ≡ err x))
unfolding on_write
on_write_cases deadline e = go e.answer
  where
    go :
        (a : Answer)
        → ((n : ℕ) × (on_write deadline (record e { answer = a }) ≡ ok n))
          ⊎ ((x : IoError) × (on_write deadline (record e { answer = a }) ≡ err x))
    go (wrote zero) = inr (write_zero, refl)
    go (wrote (suc n)) = inl (suc n, ground arith)
    go (byte b) = inr (other, refl)
    go interrupted = inl (0, refl)
    go would_block = elim (Bool-cases (leb deadline e.at)) [
      | inl late ↦ inr (timed_out, rw late)
      | inr early ↦ inl (0, rw early)
    ]
    go quiet = inr (timed_out, refl)
    go failed = inr (other, refl)

Sent-step :
    (before frame after : List ℕ) (n : ℕ) (r : Outcome (Unit {0}))
    → Sent (before ++ take n frame) (drop n frame) r after
    → Sent before frame r after
Sent-step before frame after n r (inl (e, w)) =
    inl (e, w ∙ append_assoc before _ _ ∙ ap (λ f. before ++ f) (take-append-drop n frame))
Sent-step before frame after n r (inr (x, gone, left, e, f, h, w)) = inr (
  x,
  take n frame ++ gone,
  left,
  e,
  sym (take-append-drop n frame)
      ∙ ap (λ d. take n frame ++ d) f
      ∙ sym (append_assoc (take n frame) gone left),
  h,
  w ∙ append_assoc before _ _,
)

write_rest-Sent :
    (deadline : ℕ) (script : List Event) (l : Lcm) (rest : List ℕ)
    → Sent l.written rest
        (write_rest deadline script l rest).0
        (write_rest deadline script l rest).1.written
unfolding write_rest
write_rest-Sent deadline script l [] = inl (refl, sym (append-nil _))
write_rest-Sent deadline [] l (b ∷ rest) =
    inr (other, [], b ∷ rest, refl, refl, omega arith, sym (append-nil _))
write_rest-Sent deadline (e ∷ script) l (b ∷ rest) = elim (on_write_cases deadline e) [
  | inl (n, went) ↦
      rw (went, write_rest)
        (Sent-step l.written (b ∷ rest) _ n _ (
          write_rest-Sent deadline script
            (record l { clock = e.at; written = l.written ++ take n (b ∷ rest) })
            (drop n (b ∷ rest))))
  | inr (x, broke) ↦
      rw (broke, write_rest) (inr (x, [], b ∷ rest, refl, refl, omega arith, sym (append-nil _)))
]

-- Neither does the loop touch the time at which the frame was begun, and it only consumes answers.
abbrev pub Wrote : ℕ → Lcm → Lcm → Type 0
Wrote most l m = SameLink l m × ((m.tx_started ≡ l.tx_started) × (length m.script ≤ most))

write_rest-Wrote :
    (deadline : ℕ) (script : List Event) (l : Lcm) (rest : List ℕ)
    → Wrote (length script) l (write_rest deadline script l rest).1
unfolding write_rest
write_rest-Wrote deadline script l [] = ((refl, refl, refl, refl, refl, refl), (refl, omega arith))
write_rest-Wrote deadline [] l (b ∷ rest) =
    ((refl, refl, refl, refl, refl, refl), (refl, omega arith))
write_rest-Wrote deadline (e ∷ script) l (b ∷ rest) = elim (on_write_cases deadline e) [
  | inl (n, went) ↦
      let (same, (began, fewer)) =
        write_rest-Wrote deadline script
          (record l { clock = e.at; written = l.written ++ take n (b ∷ rest) })
          (drop n (b ∷ rest)) in
      rw (went, write_rest) (same, (began, omega arith))
  | inr (x, broke) ↦
      rw (broke, write_rest) ((refl, refl, refl, refl, refl, refl), (refl, omega arith))
]

pub send_within-SameLink :
    (l : Lcm) (opcode subcmd : ℕ) (payload : List ℕ) (timeout : ℕ)
    → let m = (send_within l opcode subcmd payload timeout).1 in
      SameLink l m × (length m.script ≤ length l.script)
unfolding send_within
send_within-SameLink l opcode subcmd payload timeout =
    let wait = settle_wait l in
    let (same, (began, fewer)) =
      write_rest-Wrote (l.clock + wait + timeout) l.script
        (record l { clock = l.clock + wait; tx_started = l.clock + wait })
        (encode opcode subcmd payload) in
    (same, fewer)

pub send_within-ne-diverged :
    (l : Lcm) (opcode subcmd : ℕ) (payload : List ℕ) (timeout : ℕ)
    → (send_within l opcode subcmd payload timeout).0 ≢ diverged
unfolding send_within
send_within-ne-diverged l opcode subcmd payload timeout e =
    let wait = settle_wait l in
    elim (write_rest-Sent (l.clock + wait + timeout) l.script
      (record l { clock = l.clock + wait; tx_started = l.clock + wait })
      (encode opcode subcmd payload)) [
        | inl (whole, w) ↦ cc
        | inr (x, gone, left, broke, f, h, w) ↦ cc
      ]

rested-settle :
    (l : Lcm)
    → ((t : ℕ) → l.last_rx ≡ some t → t ≤ l.clock)
    → (l.last_rx ≡ none) ⊎ ((t : ℕ) × (l.last_rx ≡ some t) × (t + settle ≤ l.clock + settle_wait l))
unfolding settle_wait
rested-settle l rx = elim (Option-cases l.last_rx) [
  | inl never ↦ inl never
  | inr (t, last) ↦ inr (t, last, rw (last, settle_wait) (omega (arith, rx t last)))
]

-- A frame goes out whole, or the call fails with only a part of it gone (it never writes anything
-- else). The panel's caches, the pending frames and the counts stay as they are, no answer is added to
-- the script, and the first byte goes out no sooner than `SETTLE` after the last one that the panel
-- sent, if it sent any (and the clock has not gone back since).
pub send_within-Sent :
    (l : Lcm) (opcode subcmd : ℕ) (payload : List ℕ) (timeout : ℕ)
    → ((t : ℕ) → l.last_rx ≡ some t → t ≤ l.clock)
    → let (r, m) = send_within l opcode subcmd payload timeout in
      Sent l.written (encode opcode subcmd payload) r m.written
      × SameLink l m
      × (length m.script ≤ length l.script)
      × (l.clock ≤ m.tx_started)
      × ((l.last_rx ≡ none) ⊎ ((t : ℕ) × (l.last_rx ≡ some t) × (t + settle ≤ m.tx_started)))
unfolding send_within
send_within-Sent l opcode subcmd payload timeout rx =
    let wait = settle_wait l in
    let started = record l { clock = l.clock + wait; tx_started = l.clock + wait } in
    let deadline = l.clock + wait + timeout in
    let sent = write_rest-Sent deadline l.script started (encode opcode subcmd payload) in
    let (same, (began, fewer)) =
      write_rest-Wrote deadline l.script started (encode opcode subcmd payload) in
    (sent, same, fewer, rw began (omega arith), rw began (rested-settle l rx))
