-- ===== src/Controller/Reply.antt =====
-- src/bin/controller.rs and src/bin/controller-long.rs: the reply that a successful run prints.
use raspberry_pi_i2c_target.Prelude.{
  ℕ, zero, suc, ◌+◌, ◌≤◌, ◌≡◌, ◌∙◌, refl, sym, ap, length-append, arith, ◌==◌, ltb, ◌||◌, List,
  length, get_or, Bool, true, false, if◌then◌else◌, Outcome, ok, Bytes, ◌>?◌, >?-eq-ok, guard-eq-ok,
}
use raspberry_pi_i2c_target.Text.{String, byte_length}
use raspberry_pi_i2c_target.CommandLine.{first, second}
use raspberry_pi_i2c_target.Driver.Settings
use raspberry_pi_i2c_target.Responder.Serve.{response, ack_prefix}
use raspberry_pi_i2c_target.Responder.Serve.Response.{response-fits}
use raspberry_pi_i2c_target.Controller.{
  Bus, poll_length, read_reply, or_default, third, parse_address, send, main,
}
use raspberry_pi_i2c_target.Controller.Long
use raspberry_pi_i2c_target.Controller.Long.{transfer, message_of, max_message}

-- `read_exact` fills the buffer where it succeeds.
abbrev pub FillsBuffer : Bus → Type 0
FillsBuffer b =
    (n : ℕ) (w : b.World) (reply : Bytes) → (b.read_exact n w).0 ≡ ok reply → length reply ≡ n

nonempty : (n : ℕ) → (n == 0) ≡ false → 1 ≤ n
nonempty n e = grind arith

message-fits : (bound n : ℕ) → (n == 0 || ltb bound n) ≡ false → (1 ≤ n) × (n ≤ bound)
message-fits bound n e = grind arith

at_most : (bound n : ℕ) → ltb bound n ≡ false → n ≤ bound
at_most bound n e = grind arith

response-length :
    (request : Bytes) (message : String)
    → length request ≡ byte_length message
    → byte_length message ≤ 8187
    → length (response request) ≡ byte_length message + 5
response-length request message same most =
    let whole = (response-fits request).1 (omega arith) in
    ap length whole ∙ omega (arith, same, length-append ack_prefix request)

module _ (b : Bus) where
  -- The opening calls that both controllers share are over where the run succeeds.
  sent-eq-ok :
      (message : String) (address : ℕ) (bus_path : String) (w : b.World)
      (next : b.World → Outcome Bytes × b.World) {r : Bytes}
      → (b.open_bus bus_path w >? λ _ w.
          b.select address w >? λ _ w. b.write_all message w >? λ _ w. next w).0
        ≡ ok r
      → (w' : b.World) × ((next w').0 ≡ ok r)
  sent-eq-ok message address bus_path w next e =
      let (_, _, selecting) =
        >?-eq-ok (b.open_bus bus_path w)
          (λ _ w. b.select address w >? λ _ w. b.write_all message w >? λ _ w. next w) e in
      let w1 = (b.open_bus bus_path w).1 in
      let (_, _, writing) =
        >?-eq-ok (b.select address w1) (λ _ w. b.write_all message w >? λ _ w. next w) selecting in
      let w2 = (b.select address w1).1 in
      let (_, _, last) = >?-eq-ok (b.write_all message w2) (λ _ w. next w) writing in
      ((b.write_all message w2).1, last)

  -- Either the length byte is tried again, or it is the length, and not 0.
  polled :
      (test : Bool) (rest : Outcome ℕ × b.World) (byte : ℕ) (w : b.World) {n : ℕ}
      → (byte == 0) ≡ test
      → (rest.0 ≡ ok n → 1 ≤ n)
      → (if test then rest else (ok byte, w)).0 ≡ ok n
      → 1 ≤ n
  polled true rest byte w t h e = h e
  polled false rest byte w {n} t h e =
      let same : byte ≡ n = cc in omega (arith, same, nonempty byte t)

  poll_length-positive : (left : ℕ) (w : b.World) {n : ℕ} → (poll_length b left w).0 ≡ ok n → 1 ≤ n
  unfolding poll_length
  poll_length-positive zero w e = cc
  poll_length-positive (suc left) w e =
      let (bytes, _, step) =
        >?-eq-ok (b.read_exact 1 w)
          (λ bytes w.
            if get_or bytes 0 0 == 0
            then poll_length b left (b.sleep 10 w)
            else (ok (get_or bytes 0 0), w))
          e in
      polled (get_or bytes 0 0 == 0) (poll_length b left (b.sleep 10 (b.read_exact 1 w).1))
        (get_or bytes 0 0) (b.read_exact 1 w).1 refl
        (poll_length-positive left (b.sleep 10 (b.read_exact 1 w).1)) step

  module _ (fills : FillsBuffer b) where
    read_reply-nonempty :
        (w : b.World) {reply : Bytes} → (read_reply b w).0 ≡ ok reply → 1 ≤ length reply
    unfolding read_reply
    read_reply-nonempty w {reply} e =
        let polls = poll_length b 100 (b.sleep 20 w) in
        let (n, positive, read) = >?-eq-ok polls (λ n w. b.read_exact n w) e in
        let full : length reply ≡ n = fills n polls.1 reply read in
        omega (arith, full, poll_length-positive 100 (b.sleep 20 w) positive)

    transfer-length :
        (message : String) (address : ℕ) (bus_path : String) (w : b.World) {reply : Bytes}
        → (transfer b message address bus_path w).0 ≡ ok reply
        → length reply ≡ byte_length message + 5
    unfolding transfer
    transfer-length message address bus_path w {reply} e =
        let (w1, reading) =
          sent-eq-ok message address bus_path w
            (λ w. b.read_exact (byte_length message + 5) (b.sleep 20 w)) e in
        fills (byte_length message + 5) (b.sleep 20 w1) reply reading

    -- If `read_exact` fills its buffer where it succeeds, then a run of the direct target's
    -- controller that succeeds was given at most three arguments and a message of 1 to 15 bytes, the
    -- default included, and the reply that it prints has at least one byte.
    pub main-replies :
        (arguments : List String) (w : b.World) (reply : Bytes)
        → (main b arguments w).0 ≡ ok reply
        → (length arguments ≤ 3)
          × (1 ≤ byte_length (or_default "hello Pi 3" (first arguments)))
          × (byte_length (or_default "hello Pi 3" (first arguments)) ≤ 15)
          × (1 ≤ length reply)
    unfolding main send
    main-replies arguments w reply e =
        let message = or_default "hello Pi 3" (first arguments) in
        let path = or_default "/dev/i2c-1" (third arguments) in
        let (few, given) = guard-eq-ok (ltb 3 (length arguments)) _ _ (λ r h. cc) e in
        let (address, _, sending) =
          >?-eq-ok (parse_address (second arguments), w) (λ a w. send b message a path w) given in
        let (fits, exchange) =
          guard-eq-ok (byte_length message == 0 || ltb 15 (byte_length message)) _ _ (λ r h. cc)
            sending in
        let (w1, reading) = sent-eq-ok message address path w (λ w. read_reply b w) exchange in
        let (least, most) = message-fits 15 (byte_length message) fits in
        (at_most 3 (length arguments) few, least, most, read_reply-nonempty w1 reading)

    -- If `read_exact` fills its buffer where it succeeds, then a run of the long controller that
    -- succeeds was given at most three arguments and a message of 1 to 8187 bytes, the default
    -- included, and what it prints is exactly as long as the response that the responder on the
    -- target driver gives to a request of the message's length.
    pub main-matches_response :
        (arguments : List String) (w : b.World) (reply request : Bytes)
        → (Long.main b arguments w).0 ≡ ok reply
        → length request ≡ byte_length (message_of arguments)
        → (length arguments ≤ 3)
          × (1 ≤ byte_length (message_of arguments))
          × (byte_length (message_of arguments) ≤ 8187)
          × (length reply ≡ length (response request))
    unfolding Long.main Long.send
    main-matches_response arguments w reply request e same =
        let message = message_of arguments in
        let path = or_default "/dev/i2c-1" (third arguments) in
        let (few, given) = guard-eq-ok (ltb 3 (length arguments)) _ _ (λ r h. cc) e in
        let (fits, sending) =
          guard-eq-ok (byte_length message == 0 || ltb 8187 (byte_length message)) _ _ (λ r h. cc)
            given in
        let (address, _, exchange) =
          >?-eq-ok (Settings.parse_address (second arguments) 0x13, w)
            (λ a w. transfer b message a path w) sending in
        let (least, most) = message-fits 8187 (byte_length message) fits in
        let reading : length reply ≡ byte_length message + 5 =
          transfer-length message address path w exchange in
        (
          at_most 3 (length arguments) few,
          least,
          most,
          reading ∙ sym (response-length request message same most),
        )
