-- ===== src/Link/Silence.antt =====
-- A link writes to its application only while it is connected.
use iog.Prelude.{
  ℕ, ◌+◌, ◌%◌, ◌^◌, ◌≡◌, refl, ◌∙◌, true, false, Option, some, List, [], ◌∷◌, ◌++◌, arith, length,
  All,
}
use iog.Bytes.{add_u64}
use iog.Transport.{WriteHalf, WriteLaws}
use iog.Link.{
  Link, ConnectionState, connected, is_connected, add_incoming, set_awaiter, set_state, send_packet,
  close_connection,
}

-- The operations on a link.
pub data LinkOp : Type 0 where
  sends : Option (List ℕ) → LinkOp
  receives : ℕ → LinkOp
  awaits : Option ℕ → LinkOp
  changes : ConnectionState → LinkOp
  closes : LinkOp

-- Not a change to `connected`.
abbrev pub KeepsClosed : LinkOp → Type 0
KeepsClosed (changes s) = is_connected s ≡ false
KeepsClosed (sends d) = Unit
KeepsClosed (receives n) = Unit
KeepsClosed (awaits a) = Unit
KeepsClosed closes = Unit

module _ {W : Type 0} ⦃io : WriteHalf W⦄ where
  pub step : Link W → LinkOp → Link W
  step l (sends d) = send_packet l d
  step l (receives n) = add_incoming l n
  step l (awaits a) = set_awaiter l a
  step l (changes s) = set_state l s
  step l closes = close_connection l

  pub run : Link W → List LinkOp → Link W
  run l [] = l
  run l (op ∷ ops) = run (step l op) ops

  module _ (laws : WriteLaws W io) where
    step-silent :
        (l : Link W) (op : LinkOp)
        → is_connected l.state ≡ false
        → KeepsClosed op
        → (is_connected (step l op).state ≡ false)
          × (laws.sent (step l op).writer ≡ laws.sent l.writer)
    unfolding step send_packet add_incoming set_awaiter set_state close_connection is_connected
    step-silent l (sends d) h k = ground arith
    step-silent l (receives n) h k = (h, refl)
    step-silent l (awaits a) h k = (h, refl)
    step-silent l (changes s) h k = (k, refl)
    step-silent l closes h k = (refl, laws.sent-shutdown l.writer)

    -- Over a writer that keeps its laws, a link that is not connected hands nothing more to the
    -- application, whatever is done with it short of a change to `connected`.
    pub run-silent :
        (l : Link W) (ops : List LinkOp)
        → is_connected l.state ≡ false
        → All KeepsClosed ops
        → laws.sent (run l ops).writer ≡ laws.sent l.writer
    unfolding run
    run-silent l [] h k = refl
    run-silent l (op ∷ ops) h k =
        let (h', e) = step-silent l op h k.0 in run-silent (step l op) ops h' k.1 ∙ e

    -- On a connected link a write that succeeds hands over exactly the data and counts it, modulo
    -- 2 ^ 64; one that fails counts nothing; in both cases the link stays connected.
    pub send_packet-sent :
        (l : Link W) (d : List ℕ)
        → l.state ≡ connected
        → let m = send_packet l (some d) in
          (m.state ≡ connected)
          × ((io.write_all l.writer d).0 ≡ true
              → (laws.sent m.writer ≡ laws.sent l.writer ++ d)
                × (m.statistics.bytes_out ≡ (l.statistics.bytes_out + length d) % 2 ^ 64))
          × ((io.write_all l.writer d).0 ≡ false → m.statistics ≡ l.statistics)
    unfolding send_packet is_connected add_u64
    send_packet-sent l d h = (
      ground arith,
      λ ok. (ground (arith, laws.sent-write_all l.writer d), ground arith),
      λ e. ground arith,
    )
