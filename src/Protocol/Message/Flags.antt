-- ===== src/Protocol/Message/Flags.antt =====
-- The flag bytes that the encoders of internal/protocol/message.go write, read back bit by bit.
use matter_cli.Prelude.{
  ℕ, ◌+◌, ◌*◌, ◌/◌, ◌<◌, Bool, true, false, if◌then◌else◌, ◌==◌, ltb, ◌≡◌, refl, ◌&&◌, bit_and,
  arith,
}
use matter_cli.Prelude.Bits.{all_below, all_below_sound}
use matter_cli.Protocol.Message.{MessageHeader, ProtocolHeader, header_flags, protocol_flags}

-- The exchange flags with a presence bit added for each field that is there and has none yet.
unfoldable pub flags_on_wire : ℕ → Bool → Bool → ℕ
flags_on_wire f vendor ack =
    f
    + ((if vendor && bit_and f 0x10 == 0 then 0x10 else 0)
        + (if ack && bit_and f 0x02 == 0 then 0x02 else 0))

-- What DSIZ says of the two destination flags.
unfoldable pub dsiz_of : Bool → Bool → ℕ
dsiz_of node group = if node then 1 else if group then 2 else 0

-- Byte 0 of a message header: the version bits, the source bit and DSIZ.
unfoldable pub header_flags_on_wire : ℕ → Bool → Bool → Bool → ℕ
header_flags_on_wire f source node group =
    f / 16 * 16 + ((if source then 4 else 0) + dsiz_of node group)

abbrev bare : ℕ → Bool → Bool → Bool → MessageHeader
bare f source node group = record {
  flags = f;
  session_id = 0;
  security_flags = 0;
  message_counter = 0;
  source_node_id = 0;
  has_source_node_id = source;
  destination_node_id = 0;
  has_destination_node_id = node;
  destination_group_id = 0;
  has_destination_group_id = group;
}

header_row : Bool → Bool → Bool → ℕ → Bool
header_row source node group f =
    let w = header_flags (bare f source node group) in
    (bit_and w 0x04 == (if source then 4 else 0))
    && ((bit_and w 0x03 == dsiz_of node group)
        && ((bit_and w 0xf0 == bit_and f 0xf0)
            && (ltb w 256 && w == header_flags_on_wire f source node group)))

header_table : (source node group : Bool) → all_below 256 (header_row source node group) ≡ true
unfolding all_below header_row header_flags dsiz_of header_flags_on_wire
header_table true true true = refl
header_table true true false = refl
header_table true false true = refl
header_table true false false = refl
header_table false true true = refl
header_table false true false = refl
header_table false false true = refl
header_table false false false = refl

pub header_flags_bits :
    (h : MessageHeader)
    → h.flags < 256
    → (bit_and (header_flags h) 0x04 ≡ (if h.has_source_node_id then 4 else 0))
      × (bit_and (header_flags h) 0x03
          ≡ dsiz_of h.has_destination_node_id h.has_destination_group_id)
      × (bit_and (header_flags h) 0xf0 ≡ bit_and h.flags 0xf0)
      × (header_flags h < 256)
      × (header_flags h
          ≡ header_flags_on_wire h.flags h.has_source_node_id h.has_destination_node_id
              h.has_destination_group_id)
unfolding header_row header_flags
header_flags_bits h lt =
    let row =
      all_below_sound 256 _ h.flags
        (header_table h.has_source_node_id h.has_destination_node_id h.has_destination_group_id)
        lt in
    ground arith

abbrev bare_protocol : ℕ → Bool → Bool → ProtocolHeader
bare_protocol f vendor ack = record {
  exchange_flags = f;
  protocol_opcode = 0;
  exchange_id = 0;
  protocol_id = 0;
  vendor_id = 0;
  has_vendor_id = vendor;
  ack_message_counter = 0;
  has_ack_counter = ack;
}

protocol_row : Bool → Bool → ℕ → Bool
protocol_row vendor ack f =
    let w = protocol_flags (bare_protocol f vendor ack) in
    (bit_and w 0x10 == (if vendor then 0x10 else bit_and f 0x10))
    && ((bit_and w 0x02 == (if ack then 2 else bit_and f 0x02))
        && (ltb w 256 && w == flags_on_wire f vendor ack))

protocol_table : (vendor ack : Bool) → all_below 256 (protocol_row vendor ack) ≡ true
unfolding all_below protocol_row protocol_flags flags_on_wire
protocol_table true true = refl
protocol_table true false = refl
protocol_table false true = refl
protocol_table false false = refl

pub protocol_flags_bits :
    (p : ProtocolHeader)
    → p.exchange_flags < 256
    → (bit_and (protocol_flags p) 0x10
        ≡ (if p.has_vendor_id then 0x10 else bit_and p.exchange_flags 0x10))
      × (bit_and (protocol_flags p) 0x02
          ≡ (if p.has_ack_counter then 2 else bit_and p.exchange_flags 0x02))
      × (protocol_flags p < 256)
      × (protocol_flags p ≡ flags_on_wire p.exchange_flags p.has_vendor_id p.has_ack_counter)
unfolding protocol_row protocol_flags
protocol_flags_bits p lt =
    let row =
      all_below_sound 256 _ p.exchange_flags (protocol_table p.has_vendor_id p.has_ack_counter)
        lt in
    ground arith
