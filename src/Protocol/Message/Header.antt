-- ===== src/Protocol/Message/Header.antt =====
-- Round trips of the message header of internal/protocol/message.go.
use matter_cli.Prelude.{
  ℕ, ◌^◌, ◌<◌, ◌≤◌, not, ◌&&◌, if◌then◌else◌, List, [], ◌++◌, length, ◌≡◌, ok, arith,
}
use matter_cli.Prelude.Le.{get_le-put_le}
use matter_cli.Protocol.Message.{
  MessageHeader, header_flags, header_size, source_bytes, encode_message_header,
  decode_message_header,
}
use matter_cli.Protocol.Message.Flags.{header_flags_bits, header_flags_on_wire, dsiz_of}

-- Every field fits its Go type.
pub record IsWellSized (h : MessageHeader) : Type 0 where
  pub flags : h.flags < 256
  pub session_id : h.session_id < 256 ^ 2
  pub security_flags : h.security_flags < 256
  pub message_counter : h.message_counter < 256 ^ 4
  pub source_node_id : h.source_node_id < 256 ^ 8
  pub destination_node_id : h.destination_node_id < 256 ^ 8
  pub destination_group_id : h.destination_group_id < 256 ^ 2

-- The header as a receiver sees it: the flags of the wire, absent fields zero, and no group ID
-- beside a node ID.
unfoldable pub on_wire : MessageHeader → MessageHeader
on_wire h =
    let group = not h.has_destination_node_id && h.has_destination_group_id in
    record h {
      flags =
          header_flags_on_wire h.flags h.has_source_node_id h.has_destination_node_id
            h.has_destination_group_id;
      source_node_id = if h.has_source_node_id then h.source_node_id else 0;
      destination_node_id = if h.has_destination_node_id then h.destination_node_id else 0;
      destination_group_id = if group then h.destination_group_id else 0;
      has_destination_group_id = group;
    }

-- An encoded header, its fields within their Go types, decodes to the header as it is on the wire,
-- whatever follows, and the decoder consumes `header_size` bytes.
pub decode-encode_message_header :
    (h : MessageHeader) (rest : List ℕ)
    → IsWellSized h
    → decode_message_header (encode_message_header h ++ rest) ≡ ok (on_wire h, header_size h)
unfolding decode_message_header encode_message_header on_wire header_size dsiz_of header_flags
    source_bytes
decode-encode_message_header h rest v = ground (
  arith,
  header_flags_bits h,
  get_le-put_le 2 h.session_id [],
  get_le-put_le 4 h.message_counter [],
  get_le-put_le 8 h.source_node_id [],
  get_le-put_le 8 h.destination_node_id [],
  get_le-put_le 2 h.destination_group_id [],
)

-- A header that the decoder accepts, from any bytes, takes 8 bytes at least, ends inside the input,
-- and takes the size that its presence flags say.
pub decode_message_header_bounds :
    (bytes : List ℕ) (h : MessageHeader) (n : ℕ)
    → decode_message_header bytes ≡ ok (h, n)
    → (8 ≤ n) × (n ≤ length bytes) × (n ≡ header_size h)
unfolding decode_message_header header_size
decode_message_header_bounds bytes h n e = ground arith
