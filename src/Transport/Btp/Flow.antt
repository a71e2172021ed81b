-- ===== src/Transport/Btp/Flow.antt =====
-- Flow control in internal/transport/btp.go: acks, the send window and standalone acks.
use matter_cli.Prelude.{ℕ, ◌+◌, ◌%◌, ◌^◌, ◌≤◌, ◌<◌, ◌≡◌, Bool, true, false, List, [], ◌∷◌, arith}
use matter_cli.Transport.Btp.{
  BtpSession, may_send, process_ack, mark_sent, wait_can_send, standalone_ack,
  rollback_standalone_ack, handle_segment, handle_ack, handle_seq, handle_length, handle_payload,
  deliver,
}

-- The numbers in flight end right below `local_seq`: whatever has been numbered has been sent.
-- `base` is the number of the oldest one.
pub record IsSentUpTo (s : BtpSession) (base : ℕ) : Type 0 where
  pub base_byte : base < 2 ^ 8
  pub window : s.tx_inflight < 2 ^ 8
  pub position : s.local_seq ≡ (base + s.tx_inflight) % 2 ^ 8

-- Where all that is numbered has been sent, an ack for the k-th segment in flight frees the places of
-- the segments up to it and no more.
pub process_ack_exact :
    (s : BtpSession) (base k : ℕ)
    → IsSentUpTo s base
    → k < s.tx_inflight
    → (process_ack ((base + k) % 2 ^ 8) s).tx_inflight + (k + 1) ≡ s.tx_inflight
unfolding process_ack
process_ack_exact s base k v h = ground arith

-- Where `unsent` more segments have been numbered than sent, as in the middle of a message, an ack for
-- the k-th segment in flight frees the whole window, for every k with k + 1 < unsent.
pub process_ack_unsent :
    (s : BtpSession) (base unsent k : ℕ)
    → base < 2 ^ 8
    → s.tx_inflight + unsent < 2 ^ 8
    → s.local_seq ≡ (base + s.tx_inflight + unsent) % 2 ^ 8
    → k < s.tx_inflight
    → k + 1 < unsent
    → (process_ack ((base + k) % 2 ^ 8) s).tx_inflight ≡ 0
unfolding process_ack
process_ack_unsent s base unsent k hb hw hp hk hu = ground arith

-- An ack never adds to the window, and touches nothing else.
pub process_ack-le :
    (ack_num : ℕ) (s : BtpSession)
    → s.tx_inflight < 2 ^ 8
    → ((process_ack ack_num s).tx_inflight ≤ s.tx_inflight)
      × (process_ack ack_num s ≡ record s { tx_inflight = (process_ack ack_num s).tx_inflight })
unfolding process_ack
process_ack-le ack_num s lt = ground arith

-- What a peer and a sender do to the window: a segment goes out where `waitCanSend` lets it, and
-- any PDU may come in.
pub data Step : BtpSession → BtpSession → Type 0 where
  send : (s : BtpSession) → wait_can_send false s ≡ may_send → Step s (mark_sent s)
  receive : (s : BtpSession) (room : Bool) (pdu : List ℕ) → Step s (handle_segment room pdu s).1
  ack : (s : BtpSession) → Step s (standalone_ack s).1

pub data Reach (s : BtpSession) : BtpSession → Type 0 where
  here : Reach s s
  next : {t u : BtpSession} → Reach s t → Step t u → Reach s u

abbrev pub IsWithinWindow : BtpSession → BtpSession → Type 0
IsWithinWindow s t = (t.tx_inflight ≤ t.window_size) × (t.window_size ≡ s.window_size)

-- `rollbackStandaloneAck` with the pending ack number undoes `standaloneAck`, where an ack is pending
-- and the sequence number is a byte.
pub rollback-standalone_ack :
    (s : BtpSession)
    → s.has_pending_ack ≡ true
    → s.local_seq < 2 ^ 8
    → rollback_standalone_ack s.pending_ack (standalone_ack s).1 ≡ s
unfolding rollback_standalone_ack standalone_ack
rollback-standalone_ack s h lt = ground arith

handle_segment_tx :
    (room : Bool) (pdu : List ℕ) (s : BtpSession)
    → s.tx_inflight < 2 ^ 8
    → ((handle_segment room pdu s).1.tx_inflight ≤ s.tx_inflight)
      × ((handle_segment room pdu s).1.window_size ≡ s.window_size)
unfolding handle_segment handle_ack handle_seq handle_length handle_payload deliver
handle_segment_tx room [] s lt = omega arith
handle_segment_tx room (flags ∷ []) s lt = ground arith
handle_segment_tx room (flags ∷ a ∷ []) s lt = ground (arith, process_ack-le a s lt)
handle_segment_tx room (flags ∷ a ∷ rest) s lt = ground (arith, process_ack-le a s lt)

Step-IsWithinWindow :
    (s : BtpSession) {t u : BtpSession}
    → s.window_size < 2 ^ 8
    → Step t u
    → IsWithinWindow s t
    → IsWithinWindow s u
unfolding wait_can_send mark_sent standalone_ack
Step-IsWithinWindow s w (send t may) v = ground arith
Step-IsWithinWindow s w (receive t room pdu) v =
    omega (arith, handle_segment_tx room pdu t (omega arith))
Step-IsWithinWindow s w (ack t) v = ground arith

-- In any order of sends that `waitCanSend` allows, of PDUs received, well-formed or not, and of
-- standalone acks, the count in flight stays within the window, and the window stays as it is.
pub Reach-IsWithinWindow :
    {s t : BtpSession}
    → s.window_size < 2 ^ 8
    → s.tx_inflight ≤ s.window_size
    → Reach s t
    → IsWithinWindow s t
Reach-IsWithinWindow w h here = omega arith
Reach-IsWithinWindow {s} w h (next r st) = Step-IsWithinWindow s w st (Reach-IsWithinWindow w h r)
