-- ===== src/Socket/Queueing.antt =====
-- src/socket.rs, `command_channel`, `enqueue` and `drain`: the queue from the connections to the main loop.
use mathlib.Core.Path.{subst, ap}
use mathlib.Core.List.{append_assoc, append-nil}
use truenas_asustor_chassisd.Base.{
  ℕ, suc, ◌-◌, ◌*◌, ◌≤◌, ◌≡◌, refl, sym, ◌∙◌, false, not, List, [], ◌∷◌, ◌++◌, arith, length, leb,
  if-cases, take-append-drop, length-drop, length-take, length-append,
}
use truenas_asustor_chassisd.Panel.Flow.{SocketCommand}
use truenas_asustor_chassisd.Socket.{
  Queue, Result, ok, err, queue_full, enqueue, drain, command_queue_depth, max_commands_per_pass,
}

-- A connection offers a command; the main loop makes a pass.
pub data QueueEvent : Type 0 where
  offered : SocketCommand → QueueEvent
  passed : QueueEvent

abbrev pub accepted_of : Result Unit → SocketCommand → List SocketCommand
accepted_of (ok u) cmd = cmd ∷ []
accepted_of (err e) cmd = []

-- The queue after the events, what it accepted, and what the main loop took.
unfoldable pub run : Queue → List QueueEvent → Queue × List SocketCommand × List SocketCommand
unfolding enqueue drain
run q [] = (q, [], [])
run q (offered cmd ∷ events) =
    let (q', answer) = enqueue q cmd in
    let (last, accepted, taken) = run q' events in (last, accepted_of answer cmd ++ accepted, taken)
run q (passed ∷ events) =
    let (now, q') = drain q in
    let (last, accepted, taken) = run q' events in (last, accepted, now ++ taken)

enqueue_adds :
    (q : Queue) (cmd : SocketCommand)
    → let (q', answer) = enqueue q cmd in
      (q'.waiting ≡ q.waiting ++ accepted_of answer cmd)
      × (length q.waiting ≤ command_queue_depth → length q'.waiting ≤ command_queue_depth)
unfolding enqueue
enqueue_adds q cmd =
    if-cases P (not q.connected) (λ gone. (sym (append-nil q.waiting), λ h. h))
      (λ there.
        if-cases P (leb command_queue_depth (length q.waiting)) {x = (q, err queue_full)}
          {y = (record q { waiting = q.waiting ++ (cmd ∷ []) }, ok tt)}
          (λ full. (sym (append-nil q.waiting), λ h. h)) (λ room. (refl, λ h. one_more room)))
  where
    one_more :
        leb command_queue_depth (length q.waiting) ≡ false
        → length (q.waiting ++ (cmd ∷ [])) ≤ command_queue_depth
    one_more room = ground (arith, length-append q.waiting (cmd ∷ []))

    P : Queue × Result Unit → Type 0
    P r =
        (r.0.waiting ≡ q.waiting ++ accepted_of r.1 cmd)
        × (length q.waiting ≤ command_queue_depth → length r.0.waiting ≤ command_queue_depth)

-- The queue is a first-in, first-out one: over any offers and passes, what was waiting and what was accepted, in their order, is what the main loop took followed by what still waits. It never holds more than 64 commands.
pub run-IsFifo :
    (q : Queue) (events : List QueueEvent)
    → length q.waiting ≤ command_queue_depth
    → let (last, accepted, taken) = run q events in
      (q.waiting ++ accepted ≡ taken ++ last.waiting) × (length last.waiting ≤ command_queue_depth)
unfolding run drain
run-IsFifo q [] h = (append-nil q.waiting, h)
run-IsFifo q (offered cmd ∷ events) h =
    let (q', answer) = enqueue q cmd in
    let (adds, bound) = enqueue_adds q cmd in
    let (fifo, end) = run-IsFifo q' events (bound h) in
    (
      sym (append_assoc q.waiting (accepted_of answer cmd) (run q' events).1)
          ∙ ap (λ (w : List SocketCommand). w ++ (run q' events).1) (sym adds)
          ∙ fifo,
      end,
    )
run-IsFifo q (passed ∷ events) h =
    let (now, q') = drain q in
    let (fifo, end) =
      run-IsFifo q' events (omega (arith, length-drop max_commands_per_pass q.waiting)) in
    (
      ap (λ (w : List SocketCommand). w ++ (run q' events).1)
            (sym (take-append-drop max_commands_per_pass q.waiting))
          ∙ append_assoc now q'.waiting (run q' events).1
          ∙ ap (λ (w : List SocketCommand). now ++ w) fifo
          ∙ sym (append_assoc now (run q' events).2 (run q' events).0.waiting),
      end,
    )

abbrev pub passes : List QueueEvent → ℕ
passes [] = 0
passes (offered cmd ∷ events) = passes events
passes (passed ∷ events) = suc (passes events)

waiting_grows :
    (q : Queue) (cmd : SocketCommand) → length q.waiting ≤ length (enqueue q cmd).0.waiting
waiting_grows q cmd =
    let (adds, bound) = enqueue_adds q cmd in
    subst (λ (w : List SocketCommand). length q.waiting ≤ length w) (sym adds)
      (omega (arith, length-append q.waiting (accepted_of (enqueue q cmd).1 cmd)))

takes_enough :
    (q : Queue) (events : List QueueEvent) (n : ℕ)
    → n ≤ passes events * max_commands_per_pass
    → n ≤ length q.waiting
    → n ≤ length (run q events).2
unfolding run drain
takes_enough q [] n h le = omega arith
takes_enough q (offered cmd ∷ events) n h le =
    takes_enough (enqueue q cmd).0 events n h (omega (arith, waiting_grows q cmd))
takes_enough q (passed ∷ events) n h le =
    let (now, q') = drain q in
    let rest =
      takes_enough q' events (n - max_commands_per_pass) (omega arith)
        (omega (arith, length-drop max_commands_per_pass q.waiting)) in
    omega (
      arith,
      rest,
      length-append now (run q' events).2,
      length-take max_commands_per_pass q.waiting,
    )

-- Of two starts of the same list, the longer goes on from the shorter.
longer_start :
    {A : Type 0} (w x t y : List A)
    → w ++ x ≡ t ++ y
    → length w ≤ length t
    → (rest : List A) × (t ≡ w ++ rest)
longer_start [] x t y e h = (t, refl)
longer_start (a ∷ w) x [] y e h = absurd (omega arith)
longer_start (a ∷ w) x (b ∷ t) y e h =
    let (rest, e') = longer_start w x t y (tail_eq e) (omega arith) in
    (rest, λ i. sym (head_eq e) i ∷ e' i)
  where
    tail_eq : a ∷ (w ++ x) ≡ b ∷ (t ++ y) → w ++ x ≡ t ++ y
    tail_eq e = cc

    head_eq : a ∷ (w ++ x) ≡ b ∷ (t ++ y) → a ≡ b
    head_eq e = cc

-- Whatever is offered meanwhile, four passes of the main loop take all that was waiting, before anything
-- that came later.
pub run_takes_waiting :
    (q : Queue) (events : List QueueEvent)
    → length q.waiting ≤ command_queue_depth
    → 4 ≤ passes events
    → (later : List SocketCommand) × ((run q events).2 ≡ q.waiting ++ later)
run_takes_waiting q events h enough =
    longer_start q.waiting (run q events).1 (run q events).2 (run q events).0.waiting
      (run-IsFifo q events h).0
      (takes_enough q events (length q.waiting) (omega arith) (omega arith))
