-- ===== src/Protocol/Push/Feed.antt =====
-- src/display_protocol.rs: a stream in pieces, as the device driver's records deliver it.
use raspberry_pi_i2c_target.Prelude.{
  ◌<◌, ◌≡◌, sym, ap, ◌∙◌, arith, length, length-append, ◌++◌, append-nil, [], ◌∷◌, List, Bytes,
  Bool-cases, inl, inr, Outcome, ok, ◌>>=◌, map_ok,
}
use raspberry_pi_i2c_target.Protocol.State.{no_update, DisplayParser}
use raspberry_pi_i2c_target.Protocol.Push.{presents, Pushed, receive, push}
use raspberry_pi_i2c_target.Protocol.Push.Add.{add_pushed}
use raspberry_pi_i2c_target.Protocol.Push.Append.{add-no_update, continue_push, push-append}
use raspberry_pi_i2c_target.Protocol.Push.Total.{push-Completes}
use raspberry_pi_i2c_target.Protocol.Invariant.{IsWellFormed}

-- `push` on each piece in turn, the updates added up.
unfoldable pub feed : DisplayParser → List Bytes → Outcome Pushed
feed p [] = ok (record { parser = p; update = no_update })
feed p (piece ∷ pieces) = push p piece >>= λ o. map_ok (add_pushed o.update) (feed o.parser pieces)

abbrev pub concat : List Bytes → Bytes
concat [] = []
concat (piece ∷ pieces) = piece ++ concat pieces

abbrev pub AllNonempty : List Bytes → Type 0
AllNonempty [] = Unit
AllNonempty (piece ∷ pieces) = (0 < length piece) × AllNonempty pieces

pub feed-one :
    (p : DisplayParser) (piece : Bytes) (out : Pushed)
    → push p piece ≡ ok out
    → feed p (piece ∷ []) ≡ ok out
unfolding feed
feed-one p piece out e =
    rw e (ap (λ u. ok (record { parser = out.parser; update = u })) (add-no_update out.update))

pub feed-cons :
    (p : DisplayParser) (piece : Bytes) (pieces : List Bytes) (o r : Pushed)
    → push p piece ≡ ok o
    → feed o.parser pieces ≡ ok r
    → feed p (piece ∷ pieces) ≡ ok (add_pushed o.update r)
unfolding feed
feed-cons p piece pieces o r e f = rw (e, f)

-- Pieces of a stream that one `push` takes in whole give that call's result, wherever it is cut.
pub feed-concat :
    (pieces : List Bytes) (p : DisplayParser) (out : Pushed)
    → IsWellFormed p
    → AllNonempty pieces
    → 0 < length (concat pieces)
    → push p (concat pieces) ≡ ok out
    → out.parser.pending ≡ []
    → feed p pieces ≡ ok out
feed-concat [] p out w h pos e rest = absurd (omega arith)
feed-concat (piece ∷ []) p out w h pos e rest = feed-one p piece out (rw (append-nil piece) at e)
feed-concat (piece ∷ next ∷ pieces) p out w h pos e rest =
    let c = push-Completes p piece w in
    let o = c.out in
    let more = concat (next ∷ pieces) in
    let long : 0 < length more = omega (arith, length-append next (concat pieces)) in
    let e' : continue_push o more ≡ ok out = sym (push-append p piece more o w c.returns) ∙ e in
    elim (Bool-cases (presents o.update)) [
      | inl stop ↦
          let same : record o { parser = receive o.parser more } ≡ out = cc (rw stop at e') in
          absurd (
            omega (
              arith,
              ap (λ (t : Pushed). length t.parser.pending) same,
              ap length rest,
              length-append o.parser.pending more,
              long,
            ))
      | inr go ↦
          let d = push-Completes o.parser more c.well_formed in
          let same : add_pushed o.update d.out ≡ out = cc (rw (go, d.returns) at e') in
          let empty : d.out.parser.pending ≡ [] =
            ap (λ (t : Pushed). t.parser.pending) same ∙ rest in
          let later =
            feed-concat (next ∷ pieces) o.parser d.out c.well_formed h.1 long d.returns empty in
          feed-cons p piece (next ∷ pieces) o d.out c.returns later ∙ ap ok same
    ]
