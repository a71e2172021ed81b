-- ===== src/Transport/Btp.antt =====
-- internal/transport/btp.go: the capabilities exchange, segmentation, flow control and reassembly.
pub mod Reassembly
pub mod Segments
pub mod Flow
pub mod Handshake
use matter_cli.Prelude.{
  ℕ, zero, suc, ◌+◌, ◌-◌, ◌*◌, ◌%◌, ◌^◌, Bool, true, false, not, ◌&&◌, ◌||◌, if◌then◌else◌, ltb,
  leb, ◌==◌, Option, none, some, List, [], ◌∷◌, ◌++◌, length, get_or, take, drop, bit_and, bit_or,
  Result, ok, err,
}
use matter_cli.Prelude.Le.{put_le, get_le}

abbrev pub flag_begin : ℕ
flag_begin = 0x01

abbrev pub flag_continue : ℕ
flag_continue = 0x02

abbrev pub flag_end : ℕ
flag_end = 0x04

abbrev pub flag_ack : ℕ
flag_ack = 0x08

abbrev pub caps_magic1 : ℕ
caps_magic1 = 0x65

abbrev pub caps_magic2 : ℕ
caps_magic2 = 0x6c

abbrev pub current_version : ℕ
current_version = 4

abbrev pub default_window_size : ℕ
default_window_size = 6

abbrev pub default_att_mtu : ℕ
default_att_mtu = 247

abbrev pub gatt_overhead : ℕ
gatt_overhead = 3

abbrev pub min_segment_size : ℕ
min_segment_size = 20

abbrev pub default_segment_size : ℕ
default_segment_size = default_att_mtu - gatt_overhead

abbrev pub caps_response_len : ℕ
caps_response_len = 6

pub data BtpError : Type 0 where
  response_too_short : ℕ → BtpError
  bad_magic : ℕ → ℕ → BtpError
  zero_fragment_size : BtpError
  zero_window_size : BtpError
  empty_segment : BtpError
  unexpected_capabilities : BtpError
  missing_ack_num : BtpError
  missing_seq_num : BtpError
  missing_msg_len : BtpError
  already_assembling : BtpError
  not_assembling : ℕ → BtpError
  length_mismatch : ℕ → ℕ → BtpError
  session_closed : BtpError
  context_done : BtpError

unfoldable pub is_capabilities_message : List ℕ → Bool
is_capabilities_message bytes =
    not (ltb (length bytes) 2)
    && (get_or bytes 0 0 == caps_magic1 && get_or bytes 1 0 == caps_magic2)

-- The version in slot `i`, as a nibble; an unused slot is 0.
unfoldable pub version_nibble : List ℕ → ℕ → ℕ
version_nibble versions i = bit_and (get_or versions i 0) 0x0f

-- Slots 2k and 2k + 1 share a byte, the even slot below.
unfoldable pub version_byte : List ℕ → ℕ → ℕ
version_byte versions k =
    bit_or (version_nibble versions (2 * k)) (version_nibble versions (2 * k + 1) * 2 ^ 4 % 2 ^ 8)

unfoldable pub handshake_request : List ℕ → ℕ → ℕ → List ℕ
handshake_request versions att_mtu window =
    caps_magic1
    ∷ caps_magic2
    ∷ version_byte versions 0
    ∷ version_byte versions 1
    ∷ version_byte versions 2
    ∷ version_byte versions 3
    ∷ (put_le 2 att_mtu ++ (window ∷ []))

-- The version, the fragment size and the window size.
unfoldable pub parse_handshake_response : List ℕ → Result BtpError (ℕ × ℕ × ℕ)
parse_handshake_response bytes =
    if ltb (length bytes) caps_response_len
    then err (response_too_short (length bytes))
    else if not (get_or bytes 0 0 == caps_magic1) || not (get_or bytes 1 0 == caps_magic2)
    then err (bad_magic (get_or bytes 0 0) (get_or bytes 1 0))
    else (let version = bit_and (get_or bytes 2 0) 0x0f in
        let fragment_size = get_le 2 (drop 3 bytes) in
        let window = get_or bytes 5 0 in
        if fragment_size == 0
        then err zero_fragment_size
        else if window == 0
        then err zero_window_size
        else ok (version, fragment_size, window))

-- `messages` is what has been sent to the channel of completed messages, oldest first.
pub record BtpSession : Type 0 where
  pub segment_size : ℕ
  pub version : ℕ
  pub window_size : ℕ
  pub local_seq : ℕ
  pub tx_inflight : ℕ
  pub has_pending_ack : Bool
  pub pending_ack : ℕ
  pub rx_buf : List ℕ
  pub rx_expected : ℕ
  pub rx_active : Bool
  pub messages : List (List ℕ)
  pub closed : Bool

abbrev pub new_session : BtpSession
new_session = record {
  segment_size = default_segment_size;
  version = current_version;
  window_size = default_window_size;
  local_seq = 0;
  tx_inflight = 0;
  has_pending_ack = false;
  pending_ack = 0;
  rx_buf = [];
  rx_expected = 0;
  rx_active = false;
  messages = [];
  closed = false;
}

unfoldable pub init_handshake_from_response : ℕ → ℕ → ℕ → BtpSession → BtpSession
init_handshake_from_response version fragment_size window s = record s {
  version = version;
  segment_size = if ltb fragment_size min_segment_size then min_segment_size else fragment_size;
  window_size = window;
}

-- `attMTU - btpGATTOverhead` on a uint16.
unfoldable pub init_handshake : ℕ → ℕ → ℕ → BtpSession → BtpSession
init_handshake version att_mtu window s =
    let seg = (att_mtu + 2 ^ 16 - gatt_overhead) % 2 ^ 16 in
    init_handshake_from_response version
      (if ltb seg min_segment_size then min_segment_size else seg) window s

unfoldable pub close_session : BtpSession → BtpSession
close_session s = record s { closed = true }

-- One data segment; an ack is carried by a first segment only.
unfoldable pub build_segment : List ℕ → Bool → Bool → ℕ → BtpSession → List ℕ × BtpSession
build_segment payload begin_seg end_seg msg_len s =
    let first_bits = if begin_seg then flag_begin else flag_continue in
    let end_bits = if end_seg then bit_or first_bits flag_end else first_bits in
    let piggy = s.has_pending_ack && begin_seg in
    let flags = if piggy then bit_or end_bits flag_ack else end_bits in
    (
      flags
          ∷ ((if piggy then s.pending_ack ∷ [] else [])
              ++ (s.local_seq ∷ ((if begin_seg then put_le 2 msg_len else []) ++ payload))),
      record s {
        has_pending_ack = if piggy then false else s.has_pending_ack;
        local_seq = (s.local_seq + 1) % 2 ^ 8;
      },
    )

unfoldable pub max_payload : Bool → BtpSession → ℕ
max_payload is_first s =
    let ack_byte = if is_first && s.has_pending_ack then 1 else 0 in
    let len_bytes = if is_first then 2 else 0 in
    let room = s.segment_size - (2 + ack_byte + len_bytes) in if ltb room 1 then 1 else room

-- The loop of `segment` over the bytes from `offset` on. A round takes a byte at least, so
-- `length msg` rounds are enough.
unfoldable pub segment_loop : ℕ → ℕ → Bool → List ℕ → BtpSession → List (List ℕ) × BtpSession
segment_loop zero total is_first rest s = ([], s)
segment_loop (suc rounds) total is_first [] s = ([], s)
segment_loop (suc rounds) total is_first (b ∷ bs) s =
    let size = max_payload is_first s in
    let is_last = leb (length (b ∷ bs)) size in
    let (seg, s') = build_segment (take size (b ∷ bs)) is_first is_last total s in
    let (segs, s'') = segment_loop rounds total false (drop size (b ∷ bs)) s' in (seg ∷ segs, s'')

unfoldable pub segment : List ℕ → BtpSession → List (List ℕ) × BtpSession
segment msg s =
    let total = length msg % 2 ^ 16 in
    if total == 0
    then (let (seg, s') = build_segment [] true true total s in (seg ∷ [], s'))
    else segment_loop (length msg) total true msg s

unfoldable pub standalone_ack : BtpSession → Option (List ℕ) × BtpSession
standalone_ack s = if not s.has_pending_ack then (none, s) else (
  some (flag_ack ∷ s.pending_ack ∷ s.local_seq ∷ []),
  record s { local_seq = (s.local_seq + 1) % 2 ^ 8; has_pending_ack = false },
)

unfoldable pub rollback_standalone_ack : ℕ → BtpSession → BtpSession
rollback_standalone_ack ack_num s = record s {
  local_seq = (s.local_seq + 2 ^ 8 - 1) % 2 ^ 8;
  has_pending_ack = true;
  pending_ack = ack_num;
}

-- One look of `waitCanSend` at the session: an error, leave to send, or a further wait.
pub data WaitOutcome : Type 0 where
  failed : BtpError → WaitOutcome
  may_send : WaitOutcome
  waits : WaitOutcome

unfoldable pub wait_can_send : Bool → BtpSession → WaitOutcome
wait_can_send cancelled s =
    if s.closed
    then failed session_closed
    else if cancelled
    then failed context_done
    else if ltb s.tx_inflight s.window_size
    then may_send
    else waits

unfoldable pub mark_sent : BtpSession → BtpSession
mark_sent s = record s { tx_inflight = (s.tx_inflight + 1) % 2 ^ 8 }

-- On uint8: the oldest number in flight is `localSeq - txInflight`.
unfoldable pub process_ack : ℕ → BtpSession → BtpSession
process_ack ack_num s =
    if s.tx_inflight == 0
    then s
    else (let oldest = (s.local_seq + 2 ^ 8 - s.tx_inflight) % 2 ^ 8 in
        let newly = ((ack_num + 2 ^ 8 - oldest) % 2 ^ 8 + 1) % 2 ^ 8 in
        let acked = if ltb s.tx_inflight newly then s.tx_inflight else newly in
        record s { tx_inflight = (s.tx_inflight + 2 ^ 8 - acked) % 2 ^ 8 })

-- The end of a message. `room` says which case of the `select` runs: the send to the channel, or
-- the closed session.
unfoldable pub deliver : Bool → BtpSession → Result BtpError (Unit {0}) × BtpSession
deliver room s =
    let assembled = s.rx_buf in
    let s' : BtpSession = record s { rx_buf = []; rx_active = false } in
    if not (length assembled % 2 ^ 16 == s.rx_expected)
    then (err (length_mismatch (length assembled) s.rx_expected), s')
    else if room
    then (ok tt, record s' { messages = s.messages ++ (assembled ∷ []) })
    else (err session_closed, s')

-- From the payload on: `rest` is `data[idx:]`.
unfoldable pub handle_payload :
    Bool → ℕ → List ℕ → BtpSession → Result BtpError (Unit {0}) × BtpSession
handle_payload room flags rest s =
    let has_begin = not (bit_and flags flag_begin == 0) in
    let has_end = not (bit_and flags flag_end == 0) in
    if not has_begin && (not has_end && length rest == 0)
    then (ok tt, s)
    else if not s.rx_active
    then (err (not_assembling flags), s)
    else (let s' : BtpSession = record s { rx_buf = s.rx_buf ++ rest } in
        if not has_end then (ok tt, s') else deliver room s')

-- From the message length on, with the sequence number already recorded.
unfoldable pub handle_length :
    Bool → ℕ → List ℕ → BtpSession → Result BtpError (Unit {0}) × BtpSession
handle_length room flags rest s =
    if not (bit_and flags flag_begin == 0)
    then (if ltb (length rest) 2
        then (err missing_msg_len, s)
        else if s.rx_active
        then (err already_assembling, s)
        else handle_payload room flags (drop 2 rest)
            (record s { rx_buf = []; rx_expected = get_le 2 rest; rx_active = true }))
    else handle_payload room flags rest s

unfoldable pub handle_seq : Bool → ℕ → List ℕ → BtpSession → Result BtpError (Unit {0}) × BtpSession
handle_seq room flags [] s = (err missing_seq_num, s)
handle_seq room flags (seq_num ∷ rest) s =
    handle_length room flags rest (record s { pending_ack = seq_num; has_pending_ack = true })

unfoldable pub handle_ack : Bool → ℕ → List ℕ → BtpSession → Result BtpError (Unit {0}) × BtpSession
handle_ack room flags [] s = (err missing_ack_num, s)
handle_ack room flags (ack_num ∷ rest) s = handle_seq room flags rest (process_ack ack_num s)

unfoldable pub handle_segment : Bool → List ℕ → BtpSession → Result BtpError (Unit {0}) × BtpSession
handle_segment room [] s = (err empty_segment, s)
handle_segment room (flags ∷ rest) s =
    if is_capabilities_message (flags ∷ rest)
    then (err unexpected_capabilities, s)
    else if not (bit_and flags flag_ack == 0)
    then handle_ack room flags rest s
    else handle_seq room flags rest s
