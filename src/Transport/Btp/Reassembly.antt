-- ===== src/Transport/Btp/Reassembly.antt =====
-- Segmentation against reassembly in internal/transport/btp.go: a message cut by `segment` comes
-- back whole from `handleSegment`.
use matter_cli.Prelude.{
  ℕ, zero, suc, ◌%◌, ◌^◌, ◌≤◌, ◌<◌, ◌≡◌, refl, sym, ap, subst, ◌∙◌, Bool, true, false, leb, ◌==◌,
  List, [], ◌∷◌, ◌++◌, length, take, drop, Result, ok, err, arith, le_or_lt, inl, inr, append_assoc,
  take-append-drop, take_all, drop_all, length-take, length-drop,
}
use matter_cli.Prelude.Le.{get_le-put_le}
use matter_cli.Transport.Btp.{
  BtpSession, BtpError, is_capabilities_message, build_segment, max_payload, segment_loop, segment,
  process_ack, deliver, handle_payload, handle_length, handle_seq, handle_ack, handle_segment,
}

-- The receive side is untouched by an ack.
process_ack_rx :
    (a : ℕ) (s : BtpSession)
    → ((process_ack a s).rx_buf ≡ s.rx_buf)
      × ((process_ack a s).rx_expected ≡ s.rx_expected)
      × ((process_ack a s).rx_active ≡ s.rx_active)
      × ((process_ack a s).messages ≡ s.messages)
unfolding process_ack
process_ack_rx a s = ground arith

-- What a receiver holds of a message under assembly, and when one is complete.
pub record IsAssembling (before after : BtpSession) (buf : List ℕ) (total : ℕ)
    (res : Result BtpError (Unit {0})) : Type 0 where
  pub result : res ≡ ok tt
  pub buffer : after.rx_buf ≡ buf
  pub expected : after.rx_expected ≡ total
  pub active : after.rx_active ≡ true
  pub messages : after.messages ≡ before.messages

pub record IsDelivered (before after : BtpSession) (msg : List ℕ) (res : Result BtpError (Unit {0}))
    : Type 0 where
  pub result : res ≡ ok tt
  pub idle : after.rx_active ≡ false
  pub messages : after.messages ≡ before.messages ++ msg ∷ []

first_more :
    (payload : List ℕ) (total : ℕ) (s r : BtpSession)
    → total < 256 ^ 2
    → r.rx_active ≡ false
    → let out = handle_segment true (build_segment payload true false total s).0 r in
      IsAssembling r out.1 payload total out.0
unfolding handle_segment build_segment handle_ack handle_seq handle_length handle_payload
    is_capabilities_message
first_more payload total s r ht idle =
    ground (arith, get_le-put_le 2 total payload, process_ack_rx s.pending_ack r)

first_last :
    (payload : List ℕ) (total : ℕ) (s r : BtpSession)
    → total < 256 ^ 2
    → length payload ≡ total
    → r.rx_active ≡ false
    → let out = handle_segment true (build_segment payload true true total s).0 r in
      IsDelivered r out.1 payload out.0
unfolding handle_segment build_segment handle_ack handle_seq handle_length handle_payload
    is_capabilities_message deliver
first_last payload total s r ht hl idle =
    ground (arith, get_le-put_le 2 total payload, process_ack_rx s.pending_ack r)

next_more :
    (payload : List ℕ) (total : ℕ) (s r : BtpSession)
    → 0 < length payload
    → r.rx_active ≡ true
    → let out = handle_segment true (build_segment payload false false total s).0 r in
      IsAssembling r out.1 (r.rx_buf ++ payload) r.rx_expected out.0
unfolding handle_segment build_segment handle_ack handle_seq handle_length handle_payload
    is_capabilities_message
next_more payload total s r hp active = ground (arith)

next_last :
    (payload : List ℕ) (total : ℕ) (s r : BtpSession)
    → r.rx_active ≡ true
    → r.rx_expected < 2 ^ 16
    → length (r.rx_buf ++ payload) ≡ r.rx_expected
    → let out = handle_segment true (build_segment payload false true total s).0 r in
      IsDelivered r out.1 (r.rx_buf ++ payload) out.0
unfolding handle_segment build_segment handle_ack handle_seq handle_length handle_payload
    is_capabilities_message deliver
next_last payload total s r active he hl = ground (arith)

-- A receiver that is handed the segments in order, with room for what is completed.
unfoldable pub feed : List (List ℕ) → BtpSession → List BtpError × BtpSession
feed [] r = ([], r)
feed (seg ∷ segs) r =
    let (res, r') = handle_segment true seg r in
    let (errors, r'') = feed segs r' in (elim res [ ok _ ↦ errors | err e ↦ e ∷ errors ], r'')

-- The receiver has the message behind those of before, with no error and nothing half done.
pub record IsReceived (before : BtpSession) (msg : List ℕ) (out : List BtpError × BtpSession)
    : Type 0 where
  pub no_errors : out.0 ≡ []
  pub idle : out.1.rx_active ≡ false
  pub messages : out.1.messages ≡ before.messages ++ msg ∷ []

feed_last :
    (seg msg : List ℕ) (r : BtpSession)
    → IsDelivered r (handle_segment true seg r).1 msg (handle_segment true seg r).0
    → IsReceived r msg (feed (seg ∷ []) r)
unfolding feed
feed_last seg msg r d = record {
  no_errors = rw (d.result, feed);
  idle = d.idle;
  messages = d.messages;
}

feed_more :
    (seg : List ℕ) (segs : List (List ℕ)) (buf msg : List ℕ) (total : ℕ) (r : BtpSession)
    → IsAssembling r (handle_segment true seg r).1 buf total (handle_segment true seg r).0
    → IsReceived (handle_segment true seg r).1 msg (feed segs (handle_segment true seg r).1)
    → IsReceived r msg (feed (seg ∷ segs) r)
unfolding feed
feed_more seg segs buf msg total r a d = record {
  no_errors = rw (a.result, feed) d.no_errors;
  idle = d.idle;
  messages = d.messages ∙ ap (λ m. m ++ msg ∷ []) a.messages;
}

max_payload-pos : (is_first : Bool) (s : BtpSession) → 0 < max_payload is_first s
unfolding max_payload
max_payload-pos is_first s = ground arith

loop_last :
    (rounds total : ℕ) (is_first : Bool) (rest : List ℕ) (s : BtpSession)
    → 0 < length rest
    → length rest ≤ max_payload is_first s
    → (segment_loop (suc rounds) total is_first rest s).0
      ≡ (build_segment rest is_first true total s).0 ∷ []
unfolding segment_loop
loop_last rounds total is_first [] s h fits = absurd (omega arith)
loop_last rounds total is_first (b ∷ bs) s h fits =
    let size : ℕ = max_payload is_first s in
    let last : leb (length (b ∷ bs)) size ≡ true = ground arith in
    rw (last, drop_all size (b ∷ bs) fits, take_all size (b ∷ bs) fits) (loop_end rounds)
  where
    loop_end :
        (k : ℕ)
        → (build_segment (b ∷ bs) is_first true total s).0
            ∷ (segment_loop k total false [] (build_segment (b ∷ bs) is_first true total s).1).0
          ≡ (build_segment (b ∷ bs) is_first true total s).0 ∷ []
    loop_end zero = refl
    loop_end (suc k) = refl

loop_more :
    (rounds total : ℕ) (is_first : Bool) (rest : List ℕ) (s : BtpSession)
    → max_payload is_first s < length rest
    → let seg = build_segment (take (max_payload is_first s) rest) is_first false total s in
      (segment_loop (suc rounds) total is_first rest s).0
      ≡ seg.0 ∷ (segment_loop rounds total false (drop (max_payload is_first s) rest) seg.1).0
unfolding segment_loop
loop_more rounds total is_first [] s h = absurd (omega arith)
loop_more rounds total is_first (b ∷ bs) s h =
    let on : leb (length (b ∷ bs)) (max_payload is_first s) ≡ false = ground arith in rw on

-- The rounds after the first one.
feed-segment_loop :
    (rounds total : ℕ) (rest buf : List ℕ) (s r : BtpSession)
    → 0 < length rest
    → length rest ≤ rounds
    → total < 2 ^ 16
    → r.rx_active ≡ true
    → r.rx_buf ≡ buf
    → r.rx_expected ≡ total
    → length (buf ++ rest) ≡ total
    → IsReceived r (buf ++ rest) (feed (segment_loop rounds total false rest s).0 r)
feed-segment_loop zero total rest buf s r pos h ht active eb ee hl = absurd (omega arith)
feed-segment_loop (suc rounds) total rest buf s r pos h ht active eb ee hl =
    elim (le_or_lt (length rest) (max_payload false s)) [
      | inl fits ↦
          rw (loop_last rounds total false rest s pos fits, ← eb)
            (feed_last (build_segment rest false true total s).0 (r.rx_buf ++ rest) r
              (next_last rest total s r active (omega arith) (rw eb (hl ∙ sym ee))))
      | inr more ↦
          let size : ℕ = max_payload false s in
          let some_bytes : 0 < size = max_payload-pos false s in
          let seg : List ℕ × BtpSession = build_segment (take size rest) false false total s in
          let step : IsAssembling r (handle_segment true seg.0 r).1 (r.rx_buf ++ take size rest)
              r.rx_expected (handle_segment true seg.0 r).0 =
            next_more (take size rest) total s r (omega (arith, length-take size rest)) active in
          let joined : (buf ++ take size rest) ++ drop size rest ≡ buf ++ rest =
            append_assoc buf (take size rest) (drop size rest)
            ∙ ap (λ t. buf ++ t) (take-append-drop size rest) in
          rw (loop_more rounds total false rest s more) (
            feed_more seg.0 _ _ (buf ++ rest) _ r step (
              subst
                (λ m. IsReceived (handle_segment true seg.0 r).1 m (
                  feed (segment_loop rounds total false (drop size rest) seg.1).0
                    (handle_segment true seg.0 r).1))
                joined
                (feed-segment_loop rounds total (drop size rest) (buf ++ take size rest) seg.1
                  (handle_segment true seg.0 r).1 (omega (arith, length-drop size rest))
                  (omega (arith, length-drop size rest)) ht step.active
                  (step.buffer ∙ ap (λ t. t ++ take size rest) eb) (step.expected ∙ ee)
                  (ap length joined ∙ hl))))
    ]

-- The first round, for a message that is not empty.
feed_first :
    (rounds total : ℕ) (msg : List ℕ) (s r : BtpSession)
    → 0 < length msg
    → length msg ≤ suc rounds
    → total < 2 ^ 16
    → length msg ≡ total
    → r.rx_active ≡ false
    → IsReceived r msg (feed (segment_loop (suc rounds) total true msg s).0 r)
feed_first rounds total msg s r pos h ht hl idle =
    elim (le_or_lt (length msg) (max_payload true s)) [
      | inl fits ↦ rw (loop_last rounds total true msg s pos fits) (
          feed_last (build_segment msg true true total s).0 msg r
            (first_last msg total s r (omega arith) hl idle))
      | inr more ↦
          let size : ℕ = max_payload true s in
          let some_bytes : 0 < size = max_payload-pos true s in
          let seg : List ℕ × BtpSession = build_segment (take size msg) true false total s in
          let step : IsAssembling r (handle_segment true seg.0 r).1 (take size msg) total
              (handle_segment true seg.0 r).0 =
            first_more (take size msg) total s r (omega arith) idle in
          let joined : take size msg ++ drop size msg ≡ msg = take-append-drop size msg in
          rw (loop_more rounds total true msg s more) (
            feed_more seg.0 _ _ msg _ r step (
              subst
                (λ m. IsReceived (handle_segment true seg.0 r).1 m (
                  feed (segment_loop rounds total false (drop size msg) seg.1).0
                    (handle_segment true seg.0 r).1))
                joined
                (feed-segment_loop rounds total (drop size msg) (take size msg) seg.1
                  (handle_segment true seg.0 r).1 (omega (arith, length-drop size msg))
                  (omega (arith, length-drop size msg)) ht step.active step.buffer step.expected
                  (ap length joined ∙ hl))))
    ]

-- A message of less than 2 ^ 16 bytes, cut by any sender, and fed segment by segment to a receiver
-- that is in no message and has room, is delivered whole behind those of before, with no error.
pub feed-segment :
    (msg : List ℕ) (s r : BtpSession)
    → length msg < 2 ^ 16
    → r.rx_active ≡ false
    → IsReceived r msg (feed (segment msg s).0 r)
unfolding segment
feed-segment [] s r h idle = feed_last _ _ r (first_last [] 0 s r (omega arith) refl idle)
feed-segment (b ∷ bs) s r h idle =
    let whole : length (b ∷ bs) % 2 ^ 16 ≡ length (b ∷ bs) = omega arith in
    let some_bytes : (length (b ∷ bs) == 0) ≡ false = ground arith in
    rw (whole, some_bytes)
      (feed_first (length bs) (length (b ∷ bs)) (b ∷ bs) s r (omega arith) (omega arith) h refl
        idle)
