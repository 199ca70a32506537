-- ===== src/Responder/Serve/Response.antt =====
-- src/bin/target-driver.rs: the response fits the device.
use raspberry_pi_i2c_target.Prelude.{
  ◌≤◌, min, ◌≡◌, arith, ◌++◌, length, take, length-append, length-take, take_all, ap, Bytes,
}
use raspberry_pi_i2c_target.Driver.Settings.{max_transfer}
use raspberry_pi_i2c_target.Responder.Serve.{ack_prefix, response}

-- No response is longer than a transfer of the device, and a request that leaves room for the prefix
-- is sent back whole behind it.
pub response-fits :
    (request : Bytes)
    → (length (response request) ≤ max_transfer)
      × (length request ≤ 8187 → response request ≡ ack_prefix ++ request)
unfolding response
response-fits request = (
  omega (
    arith,
    length-append ack_prefix (take (min (length request) 8187) request),
    length-take (min (length request) 8187) request,
  ),
  λ h. rw (shorter h) (ap (λ bytes. ack_prefix ++ bytes) (take_all request)),
)
  where
    shorter : length request ≤ 8187 → min (length request) 8187 ≡ length request
    shorter h = omega arith
