-- ===== src/Protocol/Message/Proto.antt =====
-- Round trips of the protocol header of internal/protocol/message.go.
use matter_cli.Prelude.{
  ℕ, ◌^◌, ◌<◌, ◌≤◌, false, if◌then◌else◌, List, [], ◌++◌, length, bit_and, ◌≡◌, ok, arith, ◌+◌,
}
use matter_cli.Prelude.Le.{get_le-put_le}
use matter_cli.Protocol.Message.{ProtocolHeader, encode_protocol_header, decode_protocol_header}
use matter_cli.Protocol.Message.Flags.{flags_on_wire, protocol_flags_bits}

-- Every field fits its Go type, and the two presence bits of `exchange_flags` are set only where
-- the field is present: the encoder sets them, and never clears them.
pub record IsWellFlagged (p : ProtocolHeader) : Type 0 where
  pub exchange_flags : p.exchange_flags < 256
  pub protocol_opcode : p.protocol_opcode < 256
  pub exchange_id : p.exchange_id < 256 ^ 2
  pub protocol_id : p.protocol_id < 256 ^ 2
  pub vendor_id : p.vendor_id < 256 ^ 2
  pub ack_message_counter : p.ack_message_counter < 256 ^ 4
  pub vendor_bit : p.has_vendor_id ≡ false → bit_and p.exchange_flags 0x10 ≡ 0
  pub ack_bit : p.has_ack_counter ≡ false → bit_and p.exchange_flags 0x02 ≡ 0

-- The protocol header as a receiver sees it.
unfoldable pub proto_on_wire : ProtocolHeader → ProtocolHeader
proto_on_wire p = record p {
  exchange_flags = flags_on_wire p.exchange_flags p.has_vendor_id p.has_ack_counter;
  vendor_id = if p.has_vendor_id then p.vendor_id else 0;
  ack_message_counter = if p.has_ack_counter then p.ack_message_counter else 0;
}

unfoldable pub protocol_size : ProtocolHeader → ℕ
protocol_size p = 6 + ((if p.has_vendor_id then 2 else 0) + (if p.has_ack_counter then 4 else 0))

-- An encoded protocol header, its fields within their Go types and no presence bit set for an absent
-- field, decodes to the header as it is on the wire, whatever follows, and the decoder consumes
-- `protocol_size` bytes.
pub decode-encode_protocol_header :
    (p : ProtocolHeader) (rest : List ℕ)
    → IsWellFlagged p
    → decode_protocol_header (encode_protocol_header p ++ rest)
      ≡ ok (proto_on_wire p, protocol_size p)
unfolding decode_protocol_header encode_protocol_header proto_on_wire protocol_size
decode-encode_protocol_header p rest v = ground (
  arith,
  protocol_flags_bits p,
  get_le-put_le 2 p.exchange_id [],
  get_le-put_le 2 p.protocol_id [],
  get_le-put_le 2 p.vendor_id [],
  get_le-put_le 4 p.ack_message_counter [],
)

-- A protocol header that the decoder accepts, from any bytes, takes 6 bytes at least, ends inside the
-- input, and takes the size that its presence flags say.
pub decode_protocol_header_bounds :
    (bytes : List ℕ) (p : ProtocolHeader) (n : ℕ)
    → decode_protocol_header bytes ≡ ok (p, n)
    → (6 ≤ n) × (n ≤ length bytes) × (n ≡ protocol_size p)
unfolding decode_protocol_header protocol_size
decode_protocol_header_bounds bytes p n e = ground arith
