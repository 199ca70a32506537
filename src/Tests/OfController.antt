-- ===== src/Tests/OfController.antt =====
-- src/bin/controller.rs and src/bin/controller-long.rs on a bus whose reads give the same byte again
-- and again.
use raspberry_pi_i2c_target.Prelude.{
  ℕ, ◌+◌, ◌≤◌, ◌≡◌, refl, some, [], ◌∷◌, List, Bytes, length, replicate, length-replicate, ok, sym,
  ◌∙◌, ap,
}
use raspberry_pi_i2c_target.Text.{
  String, byte_length, strip_prefix, parse_digits, parse_unsigned, digit_value, trim_start,
  trim_end, is_white,
}
use raspberry_pi_i2c_target.CommandLine.{first}
use raspberry_pi_i2c_target.Driver.Settings
use raspberry_pi_i2c_target.Responder.Serve.{response}
use raspberry_pi_i2c_target.Controller.{
  Bus, poll_length, read_reply, or_default, parse_address, send, main,
}
use raspberry_pi_i2c_target.Controller.Long
use raspberry_pi_i2c_target.Controller.Long.{message_of, transfer}
use raspberry_pi_i2c_target.Controller.Reply.{FillsBuffer, main-replies, main-matches_response}

-- The world is the time in milliseconds.
abbrev steady : Bus
steady = record {
  World = ℕ;
  open_bus = λ path w. (ok tt, w);
  select = λ address w. (ok tt, w);
  write_all = λ message w. (ok tt, w);
  read_exact = λ n w. (ok (replicate n 2), w);
  sleep = λ n w. w + n;
}

steady-FillsBuffer : FillsBuffer steady
steady-FillsBuffer n w reply e =
    let same : replicate n 2 ≡ reply = cc in ap length (sym same) ∙ length-replicate n 2

abbrev arguments : List String
arguments = "hello" ∷ " 0x14 " ∷ []

address_trimmed : parse_address (some " 0x14 ") ≡ ok 20
unfolding parse_address trim_start trim_end is_white strip_prefix parse_unsigned parse_digits
    digit_value
address_trimmed = refl

abbrev reply : Bytes
reply = 2 ∷ 2 ∷ []

main-arguments : (main steady arguments 0).0 ≡ ok reply
unfolding main send read_reply poll_length parse_address trim_start trim_end is_white strip_prefix
    parse_unsigned parse_digits digit_value byte_length
main-arguments = refl

main-replies_example :
    (length arguments ≤ 3)
    × (1 ≤ byte_length (or_default "hello Pi 3" (first arguments)))
    × (byte_length (or_default "hello Pi 3" (first arguments)) ≤ 15)
    × (1 ≤ length reply)
main-replies_example = main-replies steady steady-FillsBuffer arguments 0 reply main-arguments

abbrev long_arguments : List String
long_arguments = "hello" ∷ "0x14" ∷ []

abbrev long_reply : Bytes
long_reply = replicate 10 2

abbrev request : Bytes
request = 1 ∷ 2 ∷ 3 ∷ 4 ∷ 5 ∷ []

main-long_arguments : (Long.main steady long_arguments 0).0 ≡ ok long_reply
unfolding Long.main Long.send transfer Settings.parse_address strip_prefix parse_unsigned
    parse_digits digit_value byte_length
main-long_arguments = refl

request-length : length request ≡ byte_length (message_of long_arguments)
unfolding byte_length
request-length = refl

main-matches_response_example :
    (length long_arguments ≤ 3)
    × (1 ≤ byte_length (message_of long_arguments))
    × (byte_length (message_of long_arguments) ≤ 8187)
    × (length long_reply ≡ length (response request))
main-matches_response_example =
    main-matches_response steady steady-FillsBuffer long_arguments 0 long_reply request
      main-long_arguments request-length
