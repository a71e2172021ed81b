-- ===== src/Protocol/Message.antt =====
-- internal/protocol/message.go: the message header, the protocol header and the message.
pub mod Flags
pub mod Header
pub mod Proto
use matter_cli.Prelude.{
  ℕ, suc, ◌+◌, ◌<◌, ◌/◌, Bool, true, false, not, if◌then◌else◌, ltb, ◌==◌, List, [], ◌∷◌, ◌++◌,
  length, get_or, drop, bit_and, bit_or, Result, ok, err, ◌>>=◌,
}
use matter_cli.Prelude.Le.{put_le, get_le}

-- Message flags.
abbrev pub flag_source_node_id : ℕ
flag_source_node_id = 0x04

abbrev pub flag_dsiz_mask : ℕ
flag_dsiz_mask = 0x03

abbrev pub flag_version_mask : ℕ
flag_version_mask = 0xf0

abbrev pub dsiz_none : ℕ
dsiz_none = 0

abbrev pub dsiz_node_id : ℕ
dsiz_node_id = 1

abbrev pub dsiz_group : ℕ
dsiz_group = 2

abbrev pub sec_flag_session_type_mask : ℕ
sec_flag_session_type_mask = 0x03

-- Exchange flags of the protocol header.
abbrev pub ex_flag_initiator : ℕ
ex_flag_initiator = 0x01

abbrev pub ex_flag_ack : ℕ
ex_flag_ack = 0x02

abbrev pub ex_flag_reliable : ℕ
ex_flag_reliable = 0x04

abbrev pub ex_flag_vendor : ℕ
ex_flag_vendor = 0x10

pub record MessageHeader : Type 0 where
  pub flags : ℕ
  pub session_id : ℕ
  pub security_flags : ℕ
  pub message_counter : ℕ
  pub source_node_id : ℕ
  pub has_source_node_id : Bool
  pub destination_node_id : ℕ
  pub has_destination_node_id : Bool
  pub destination_group_id : ℕ
  pub has_destination_group_id : Bool

pub record ProtocolHeader : Type 0 where
  pub exchange_flags : ℕ
  pub protocol_opcode : ℕ
  pub exchange_id : ℕ
  pub protocol_id : ℕ
  pub vendor_id : ℕ
  pub has_vendor_id : Bool
  pub ack_message_counter : ℕ
  pub has_ack_counter : Bool

pub record Message : Type 0 where
  pub header : MessageHeader
  pub protocol : ProtocolHeader
  pub payload : List ℕ

-- The errors of the two decoders, one for each `fmt.Errorf`.
pub data HeaderError : Type 0 where
  message_too_short : ℕ → HeaderError
  no_source_node_id : HeaderError
  no_destination_node_id : HeaderError
  no_destination_group_id : HeaderError
  unknown_dsiz : ℕ → HeaderError
  protocol_too_short : ℕ → HeaderError
  no_vendor_id : HeaderError
  no_ack_counter : HeaderError

unfoldable pub version : MessageHeader → ℕ
version h = bit_and h.flags flag_version_mask / 16

unfoldable pub session_type : MessageHeader → ℕ
session_type h = bit_and h.security_flags sec_flag_session_type_mask

-- Byte 0 as the encoder writes it: the version bits of `flags`, and the bits for what follows.
unfoldable pub header_flags : MessageHeader → ℕ
header_flags h =
    let version_bits = bit_and h.flags flag_version_mask in
    let with_source =
      if h.has_source_node_id then bit_or version_bits flag_source_node_id else version_bits in
    if h.has_destination_node_id
    then bit_or with_source dsiz_node_id
    else if h.has_destination_group_id
    then bit_or with_source dsiz_group
    else with_source

unfoldable pub header_size : MessageHeader → ℕ
header_size h =
    let with_source = if h.has_source_node_id then 16 else 8 in
    if h.has_destination_node_id
    then with_source + 8
    else if h.has_destination_group_id
    then with_source + 2
    else with_source

-- The two optional fields. The node ID wins where both destinations are set.
unfoldable pub source_bytes : MessageHeader → List ℕ
source_bytes h = if h.has_source_node_id then put_le 8 h.source_node_id else []

unfoldable pub destination_bytes : MessageHeader → List ℕ
destination_bytes h =
    if h.has_destination_node_id
    then put_le 8 h.destination_node_id
    else if h.has_destination_group_id
    then put_le 2 h.destination_group_id
    else []

-- The buffer is filled from left to right with no gap, so it is an append.
unfoldable pub encode_message_header : MessageHeader → List ℕ
unfolding source_bytes destination_bytes header_flags
encode_message_header h =
    header_flags h
    ∷ (put_le 2 h.session_id
        ++ (h.security_flags
            ∷ (put_le 4 h.message_counter ++ (source_bytes h ++ destination_bytes h))))

abbrev fixed_fields : List ℕ → MessageHeader
fixed_fields bytes = record {
  flags = get_or bytes 0 0;
  session_id = get_le 2 (drop 1 bytes);
  security_flags = get_or bytes 3 0;
  message_counter = get_le 4 (drop 4 bytes);
  source_node_id = 0;
  has_source_node_id = false;
  destination_node_id = 0;
  has_destination_node_id = false;
  destination_group_id = 0;
  has_destination_group_id = false;
}

-- The optional source node ID at `offset`; the offset behind it is returned.
unfoldable pub decode_source : List ℕ → MessageHeader → ℕ → Result HeaderError (MessageHeader × ℕ)
decode_source bytes h offset =
    if not (bit_and h.flags flag_source_node_id == 0)
    then (if ltb (length bytes) (offset + 8)
        then err no_source_node_id
        else ok (
          record h { source_node_id = get_le 8 (drop offset bytes); has_source_node_id = true },
          offset + 8,
        ))
    else ok (h, offset)

-- The optional destination at `offset`, by the DSIZ bits.
unfoldable pub decode_destination :
    List ℕ → MessageHeader → ℕ → Result HeaderError (MessageHeader × ℕ)
decode_destination bytes h offset =
    let dsiz = bit_and h.flags flag_dsiz_mask in
    if dsiz == dsiz_node_id
    then (if ltb (length bytes) (offset + 8)
        then err no_destination_node_id
        else ok (
          record h {
            destination_node_id = get_le 8 (drop offset bytes);
            has_destination_node_id = true;
          },
          offset + 8,
        ))
    else if dsiz == dsiz_group
    then (if ltb (length bytes) (offset + 2)
        then err no_destination_group_id
        else ok (
          record h {
            destination_group_id = get_le 2 (drop offset bytes);
            has_destination_group_id = true;
          },
          offset + 2,
        ))
    else if dsiz == dsiz_none
    then ok (h, offset)
    else err (unknown_dsiz dsiz)

unfoldable pub decode_message_header : List ℕ → Result HeaderError (MessageHeader × ℕ)
unfolding decode_source decode_destination
decode_message_header bytes =
    if ltb (length bytes) 8 then err (message_too_short (length bytes)) else (do
      (h, offset) ← decode_source bytes (fixed_fields bytes) 8
      decode_destination bytes h offset)

unfoldable pub is_initiator : ProtocolHeader → Bool
is_initiator p = not (bit_and p.exchange_flags ex_flag_initiator == 0)

unfoldable pub needs_ack : ProtocolHeader → Bool
needs_ack p = not (bit_and p.exchange_flags ex_flag_reliable == 0)

unfoldable pub protocol_flags : ProtocolHeader → ℕ
protocol_flags p =
    let with_vendor =
      if p.has_vendor_id then bit_or p.exchange_flags ex_flag_vendor else p.exchange_flags in
    if p.has_ack_counter then bit_or with_vendor ex_flag_ack else with_vendor

unfoldable pub encode_protocol_header : ProtocolHeader → List ℕ
unfolding protocol_flags
encode_protocol_header p =
    protocol_flags p
    ∷ p.protocol_opcode
    ∷ (put_le 2 p.exchange_id
        ++ (put_le 2 p.protocol_id
            ++ ((if p.has_vendor_id then put_le 2 p.vendor_id else [])
                ++ (if p.has_ack_counter then put_le 4 p.ack_message_counter else []))))

abbrev fixed_protocol : List ℕ → ProtocolHeader
fixed_protocol bytes = record {
  exchange_flags = get_or bytes 0 0;
  protocol_opcode = get_or bytes 1 0;
  exchange_id = get_le 2 (drop 2 bytes);
  protocol_id = get_le 2 (drop 4 bytes);
  vendor_id = 0;
  has_vendor_id = false;
  ack_message_counter = 0;
  has_ack_counter = false;
}

unfoldable pub decode_vendor : List ℕ → ProtocolHeader → ℕ → Result HeaderError (ProtocolHeader × ℕ)
decode_vendor bytes p offset =
    if not (bit_and p.exchange_flags ex_flag_vendor == 0)
    then (if ltb (length bytes) (offset + 2)
        then err no_vendor_id
        else ok (
          record p { vendor_id = get_le 2 (drop offset bytes); has_vendor_id = true },
          offset + 2,
        ))
    else ok (p, offset)

unfoldable pub decode_ack : List ℕ → ProtocolHeader → ℕ → Result HeaderError (ProtocolHeader × ℕ)
decode_ack bytes p offset =
    if not (bit_and p.exchange_flags ex_flag_ack == 0)
    then (if ltb (length bytes) (offset + 4)
        then err no_ack_counter
        else ok (
          record p { ack_message_counter = get_le 4 (drop offset bytes); has_ack_counter = true },
          offset + 4,
        ))
    else ok (p, offset)

unfoldable pub decode_protocol_header : List ℕ → Result HeaderError (ProtocolHeader × ℕ)
unfolding decode_vendor decode_ack
decode_protocol_header bytes =
    if ltb (length bytes) 6
    then err (protocol_too_short (length bytes))
    else (do (p, offset) ← decode_vendor bytes (fixed_protocol bytes) 6; decode_ack bytes p offset)
