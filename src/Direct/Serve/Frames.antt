-- ===== src/Direct/Serve/Frames.antt =====
-- src/bin/target.rs: what the loop of `main` sends for the bytes that it takes.
use raspberry_pi_i2c_target.Prelude.{
  ℕ, zero, suc, ◌≤◌, ◌<◌, min, ◌≡◌, ◌⊎◌, refl, sym, ap, ◌∙◌, arith, ◌==◌, ltb, List, [], ◌∷◌, ◌++◌,
  append-nil, append_assoc, length, bit_and, take, length-append, length-take, Bool-cases, inl, inr,
  if◌then◌else◌, Outcome, ok, err, panic, out_of_fuel, Bytes, ◌>!◌, >?-ok, Bool, true, false, not,
  ◌&&◌,
}
use raspberry_pi_i2c_target.Responder.Serve.{ack_prefix}
use raspberry_pi_i2c_target.Direct.Machine.{Page, Machine, Peripheral, Registers}
use raspberry_pi_i2c_target.Direct.Target.{
  HardwareTarget, drain_received, receiving, queue_response, bsc_fr, bsc_fr_rx_busy,
}
use raspberry_pi_i2c_target.Direct.Target.Send.{Settles, queue_response-sends, drain_received-takes}
use raspberry_pi_i2c_target.Direct.Serve.{response, answer, handle_received, serve_loop}

-- What a command is answered with: nothing if it has more than 15 bytes, else the length of the
-- response and the response, which is the acknowledgement with the first ten bytes of the command.
abbrev pub frame : Bytes → Bytes
frame command =
    if ltb 15 (length command)
    then []
    else let reply = ack_prefix ++ take (min (length command) 10) command in length reply ∷ reply

abbrev pub frames : List Bytes → Bytes
frames [] = []
frames (command ∷ rest) = frame command ++ frames rest

abbrev pub joined : List Bytes → Bytes
joined [] = []
joined (command ∷ rest) = command ++ joined rest

-- What a round of the loop finds: the bytes that it holds behind `drain_received`, and whether the
-- flags that the hardware gives then have RX_BUSY.
abbrev pub Event : Type 0
Event = Bytes × Bool

-- The bytes held are a command where there are some and no transfer is running.
abbrev pub is_command : Event → Bool
is_command (held, busy) = not (length held == 0) && not busy

-- The commands, and the bytes held after the last round.
abbrev pub commands : List Event → List Bytes
commands [] = []
commands (event ∷ rest) = if is_command event then event.0 ∷ commands rest else commands rest

abbrev pub left_over : Bytes → List Event → Bytes
left_over held [] = held
left_over held (event ∷ rest) = left_over (if is_command event then [] else event.0) rest

abbrev value : Outcome Bytes → Bytes
value (ok bytes) = bytes
value (err error) = []
value panic = []
value out_of_fuel = []

-- What the rounds of the loop find, one after the other.
unfoldable pub events :
    (m : Machine) → HardwareTarget → (rounds fuel : ℕ) → Bytes → m.World → List Event
events m t zero fuel buffer w = []
events m t (suc rounds) fuel buffer w = m.is_running w >! λ running w.
    let drained = drain_received m fuel buffer w in
    let flags = (m.read_register Page.bsc bsc_fr drained.1).0 in
    let handled = handle_received m t fuel (value drained.0) drained.1 in
    let rest = events m t rounds fuel (value handled.0) handled.1 in
    if running then (value drained.0, not (bit_and flags bsc_fr_rx_busy == 0)) ∷ rest else []

response-length :
    (received : Bytes) → (1 ≤ length (response received)) × (length (response received) ≤ 15)
unfolding response
response-length received = omega (
  arith,
  length-append ack_prefix (take (min (length received) 10) received),
  length-take (min (length received) 10) received,
)

module _ (m : Machine) (r : Registers m) (limit : ℕ) (s : Settles m limit)
    (t : HardwareTarget) where
  -- A run that gives these bytes, has taken no more and sent these.
  abbrev Does : Outcome Bytes × m.World → (buffer more : Bytes) → Peripheral → Type 0
  Does run buffer more p =
      (run.0 ≡ ok buffer)
      × ((r.peripheral run.1).taken ≡ p.taken)
      × ((r.peripheral run.1).sent ≡ p.sent ++ more)

  answer-Does :
      (fuel : ℕ) (received : Bytes) (w : m.World)
      → limit < fuel
      → Does (answer m t fuel received w) [] (frame received) (r.peripheral w)
  unfolding answer response
  answer-Does fuel received w h = elim (Bool-cases (ltb 15 (length received))) [
    | inl long ↦ rw long (refl, refl, sym (append-nil (r.peripheral w).sent))
    | inr short ↦
        let (least, most) = response-length received in
        let (done, at) =
          queue_response-sends m r limit s fuel t (response received) w h least most in
        let v = (queue_response m fuel t (response received) w).1 in
        rw (short, done)
          (
            refl,
            ap (λ (p : Peripheral). p.taken) (r.sleep_keeps 1000 v ∙ at),
            ap (λ (p : Peripheral). p.sent) (r.sleep_keeps 1000 v ∙ at),
          )
  ]

  -- What the body of the loop does behind `drain_received`.
  handle_received-Does :
      (fuel : ℕ) (received : Bytes) (w : m.World)
      → limit < fuel
      → (busy : Bool)
      → not (bit_and (m.read_register Page.bsc bsc_fr w).0 bsc_fr_rx_busy == 0) ≡ busy
      → Does
          (handle_received m t fuel received w)
          (if is_command (received, busy) then [] else received)
          (if is_command (received, busy) then frame received else [])
          (r.peripheral w)
  unfolding handle_received receiving
  handle_received-Does fuel received w h busy e =
      let w1 = (m.read_register Page.bsc bsc_fr w).1 in
      let polled = r.read_loads Page.bsc bsc_fr w in
      elim (Bool-cases (length received == 0)) [
        | inl none_yet ↦
            rw none_yet
              (refl, rw (r.sleep_keeps 1000 w) refl, rw (r.sleep_keeps 1000 w, append-nil) refl)
        | inr some_bytes ↦ elim (Bool-cases busy) [
          | inr quiet ↦ rw (some_bytes, e, quiet) (rw (← polled) (answer-Does fuel received w1 h))
          | inl running ↦
              rw (some_bytes, e, running)
                (
                  refl,
                  rw (r.sleep_keeps 1000 w1, polled) refl,
                  rw (r.sleep_keeps 1000 w1, polled, append-nil) refl,
                )
        ]
      ]

  -- What the loop comes to, and what it has taken and sent.
  abbrev pub Answers :
      (before buffer : Bytes) (es : List Event) → Peripheral → Outcome {0} Unit × m.World → Type 0
  Answers before buffer es p run =
      ((run.0 ≡ ok tt) ⊎ (run.0 ≡ out_of_fuel))
      × ((r.peripheral run.1).taken ≡ before ++ (joined (commands es) ++ left_over buffer es))
      × ((r.peripheral run.1).sent ≡ p.sent ++ frames (commands es))

  split :
      (command : Bool) (before held : Bytes)
      → before ++ held
        ≡ (if command then before ++ held else before) ++ (if command then [] else held)
  split true before held = sym (append-nil (before ++ held))
  split false before held = refl

  -- One round in front of others.
  add_round :
      (before buffer held : Bytes) (busy : Bool) (es : List Event) (p q : Peripheral)
      (run : Outcome {0} Unit × m.World)
      → q.sent ≡ p.sent ++ (if is_command (held, busy) then frame held else [])
      → Answers
          (if is_command (held, busy) then before ++ held else before)
          (if is_command (held, busy) then [] else held)
          es
          q
          run
      → Answers before buffer ((held, busy) ∷ es) p run
  add_round before buffer held busy es p q run e (ended, taken, sent) =
      elim (Bool-cases (is_command (held, busy))) [
        | inl command ↦
            let e' = rw command at e in
            let taken' = rw command at taken in
            rw command (ended, taken' ∙ simp append_assoc, sent ∙ simp (e', append_assoc))
        | inr none_yet ↦
            let e' = rw none_yet at e in
            let taken' = rw none_yet at taken in
            rw none_yet (ended, taken', sent ∙ simp (e', append-nil))
      ]

  loop-Answers :
      (rounds fuel : ℕ) (before buffer : Bytes) (w : m.World)
      → limit < fuel
      → (r.peripheral w).taken ≡ before ++ buffer
      → Answers before buffer
          (events m t rounds fuel buffer w)
          (r.peripheral w)
          (serve_loop m t rounds fuel buffer w)
  unfolding serve_loop events
  loop-Answers zero fuel before buffer w h e = (inr refl, e, sym (append-nil _))
  loop-Answers (suc rounds) fuel before buffer w h e =
      let w1 = (m.is_running w).1 in
      elim (Bool-cases (m.is_running w).0) [
        | inr stopped ↦
            rw stopped (inl refl, rw (r.running_keeps w) e, rw (r.running_keeps w, append-nil) refl)
        | inl running ↦
            let drained = drain_received m fuel buffer w1 in
            let (bytes, full, more, kept) =
              drain_received-takes m r limit s fuel buffer w1
                (omega (arith, s.waiting_limit w1, h)) in
            let held = buffer ++ bytes in
            let busy =
              not (bit_and (m.read_register Page.bsc bsc_fr drained.1).0 bsc_fr_rx_busy == 0) in
            let handled = handle_received m t fuel held drained.1 in
            let command = is_command (held, busy) in
            let next = if command then [] else held in
            let (done, same, answered) = handle_received-Does fuel held drained.1 h busy refl in
            let loop = serve_loop m t rounds fuel in
            let holds : (r.peripheral drained.1).taken ≡ before ++ held =
              more
              ∙ ap (λ (p : Peripheral). p.taken ++ bytes) (r.running_keeps w)
              ∙ ap (λ b. b ++ bytes) e
              ∙ append_assoc before buffer bytes in
            let rest =
              loop-Answers rounds fuel (if command then before ++ held else before) next handled.1 h
                (same ∙ holds ∙ split command before held) in
            rw
              (
                running,
                >?-ok drained (handle_received m t fuel) held full,
                full,
                >?-ok handled loop next done,
                done,
              )
              (add_round before buffer held busy (events m t rounds fuel next handled.1)
                (r.peripheral w) (r.peripheral handled.1) (loop next handled.1)
                (answered ∙ rw (kept ∙ ap (λ (p : Peripheral). p.sent) (r.running_keeps w)) refl)
                rest)
      ]

  -- If what is polled for comes within `limit` polls and the fuel is more than `limit`, then the loop
  -- of `main` does not fail: it returns, or all its rounds are over. Of what its rounds find, the
  -- commands are the bytes held where there are some and RX_BUSY is clear. Up to there the bytes taken
  -- are the commands in their order and the bytes still held, and the bytes sent are the answers to
  -- the commands in their order: nothing for a command of more than 15 bytes, and for any other the
  -- length of the response and the response.
  pub serve_loop-Answers :
      (rounds fuel : ℕ) (w : m.World)
      → limit < fuel
      → Answers
          (r.peripheral w).taken
          []
          (events m t rounds fuel [] w)
          (r.peripheral w)
          (serve_loop m t rounds fuel [] w)
  serve_loop-Answers rounds fuel w h =
      loop-Answers rounds fuel (r.peripheral w).taken [] w h (sym (append-nil _))
