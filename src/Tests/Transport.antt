-- ===== src/Tests/Transport.antt =====
-- internal/transport/btp.go at concrete inputs.
use matter_cli.Prelude.{
  ℕ, zero, suc, ◌+◌, ◌%◌, ◌^◌, ◌≤◌, ◌<◌, ◌≡◌, refl, ok, true, List, [], ◌∷◌, length, All, arith,
}
use matter_cli.Transport.Btp.Handshake.{init-parse_handshake_response}
use matter_cli.Transport.Btp.{
  parse_handshake_response, init_handshake_from_response, BtpSession, new_session, segment,
  segment_loop, build_segment, max_payload, handle_segment, process_ack, mark_sent, wait_can_send,
}
use matter_cli.Transport.Btp.Reassembly.{IsReceived, feed, feed-segment}
use matter_cli.Transport.Btp.Segments.{segment_fits, segment_numbers}
use matter_cli.Transport.Btp.Flow.{
  IsSentUpTo, process_ack_exact, process_ack_unsent, send, receive, Reach, here, next,
  IsWithinWindow, Reach-IsWithinWindow,
}

-- A client with the smallest segments, and an ack to send.
abbrev client : BtpSession
client = record new_session {
  segment_size = 20;
  local_seq = 254;
  has_pending_ack = true;
  pending_ack = 3;
}

abbrev message : List ℕ
message =
    1 ∷ 2 ∷ 3 ∷ 4 ∷ 5 ∷ 6 ∷ 7 ∷ 8 ∷ 9 ∷ 10 ∷ 11 ∷ 12 ∷ 13 ∷ 14 ∷ 15 ∷ 16 ∷ 17 ∷ 18 ∷ 19 ∷ 20 ∷ 21
    ∷ 22 ∷ 23 ∷ 24 ∷ 25 ∷ 26 ∷ 27 ∷ 28 ∷ 29 ∷ 30 ∷ 31 ∷ 32 ∷ 33 ∷ 34 ∷ 35 ∷ 36 ∷ []

three_segments : length (segment message client).0 ≡ 3
unfolding segment segment_loop build_segment max_payload
three_segments = refl

feed-segment_example : IsReceived new_session message (feed (segment message client).0 new_session)
feed-segment_example = feed-segment message client new_session (omega arith) refl

segment_fits_example : All (λ seg. length seg ≤ 20) (segment message client).0
segment_fits_example = segment_fits message client (omega arith)

unfoldable zeros : ℕ → List ℕ
zeros zero = []
zeros (suc n) = 0 ∷ zeros n

length-zeros : (n : ℕ) → length (zeros n) ≡ n
unfolding zeros
length-zeros zero = refl
length-zeros (suc n) = omega (arith, length-zeros n)

whole_length : length (zeros (2 ^ 16)) % 2 ^ 16 ≡ 0
whole_length = omega (arith, length-zeros (2 ^ 16))

-- A message of 64 KiB is sent as the empty one.
wrapped_segment : segment (zeros (2 ^ 16)) client ≡ segment [] client
unfolding segment
wrapped_segment = ground (arith, whole_length)

segment_numbers_example :
    (segment message client).1.local_seq ≡ (254 + length (segment message client).0) % 2 ^ 8
segment_numbers_example = segment_numbers message client (omega arith)

-- Numbers 254, 255, 0 and 1 are in flight.
abbrev four_sent : BtpSession
four_sent = record new_session { local_seq = 2; tx_inflight = 4 }

four_sent-IsSentUpTo : IsSentUpTo four_sent 254
four_sent-IsSentUpTo = record { base_byte = omega arith; window = omega arith; position = refl }

process_ack_exact_example : (process_ack ((254 + 2) % 2 ^ 8) four_sent).tx_inflight + (2 + 1) ≡ 4
process_ack_exact_example = process_ack_exact four_sent 254 2 four_sent-IsSentUpTo (omega arith)

-- Of a message of eight segments six are sent; the peer acks the first.
abbrev middle : BtpSession
middle = record new_session { local_seq = 8; tx_inflight = 6 }

process_ack_unsent_example : (process_ack ((0 + 0) % 2 ^ 8) middle).tx_inflight ≡ 0
process_ack_unsent_example =
    process_ack_unsent middle 0 2 0 (omega arith) (omega arith) refl (omega arith) (omega arith)

abbrev sent_once : BtpSession
sent_once = mark_sent new_session

path : Reach new_session (handle_segment true (8 ∷ 0 ∷ 5 ∷ []) sent_once).1
unfolding wait_can_send
path = next (next here (send new_session refl)) (receive sent_once true (8 ∷ 0 ∷ 5 ∷ []))

Reach-IsWithinWindow_example :
    IsWithinWindow new_session (handle_segment true (8 ∷ 0 ∷ 5 ∷ []) sent_once).1
Reach-IsWithinWindow_example = Reach-IsWithinWindow (omega arith) (omega arith) path

-- Version 4, fragments of 244 bytes, a window of 6.
abbrev response : List ℕ
response = 0x65 ∷ 0x6c ∷ 4 ∷ 244 ∷ 0 ∷ 6 ∷ []

response_parsed : parse_handshake_response response ≡ ok (4, 244, 6)
unfolding parse_handshake_response
response_parsed = refl

init-parse_handshake_response_example :
    let t = init_handshake_from_response 4 244 6 new_session in
    (20 ≤ t.segment_size)
    × (t.segment_size < 2 ^ 16)
    × (0 < t.window_size)
    × (t.window_size < 2 ^ 8)
init-parse_handshake_response_example =
    init-parse_handshake_response response 4 244 6 new_session (ground arith) response_parsed
