-- ===== src/Tests/Protocol.antt =====
-- internal/protocol/message.go and codec.go at concrete inputs.
use matter_cli.Prelude.{
  ℕ, ◌≤◌, length, ◌≡◌, refl, true, false, none, some, List, [], ◌∷◌, ◌++◌, ok, ◌>>=◌, arith,
}
use matter_cli.Protocol.Message.{
  MessageHeader, ProtocolHeader, Message, encode_message_header, decode_message_header, header_size,
  encode_protocol_header, decode_protocol_header, decode_vendor, decode_ack, decode_source,
  decode_destination,
}
use matter_cli.Protocol.Message.Header.{
  IsWellSized, on_wire, decode-encode_message_header, decode_message_header_bounds,
}
use matter_cli.Protocol.Message.Proto.{
  IsWellFlagged, proto_on_wire, protocol_size, decode-encode_protocol_header,
  decode_protocol_header_bounds,
}
use matter_cli.Protocol.Session.{Session, case, fresh_counter}
use matter_cli.Protocol.Codec.{encode, decode, secured, is_secured}
use matter_cli.Protocol.Codec.RoundTrip.{
  IsSendable, IsPaired, message_on_wire, decode-encode_clear, decode-encode_secured,
}
use matter_cli.Tests.Crypto.{block_of, block_cipher, key}

abbrev header : MessageHeader
header = record {
  flags = 0;
  session_id = 300;
  security_flags = 0;
  message_counter = 70000;
  source_node_id = 12;
  has_source_node_id = false;
  destination_node_id = 34;
  has_destination_node_id = true;
  destination_group_id = 0;
  has_destination_group_id = false;
}

abbrev protocol : ProtocolHeader
protocol = record {
  exchange_flags = 5;
  protocol_opcode = 2;
  exchange_id = 513;
  protocol_id = 1;
  vendor_id = 0;
  has_vendor_id = false;
  ack_message_counter = 99;
  has_ack_counter = true;
}

header-IsWellSized : IsWellSized header
header-IsWellSized = record {
  flags = omega arith;
  session_id = omega arith;
  security_flags = omega arith;
  message_counter = omega arith;
  source_node_id = omega arith;
  destination_node_id = omega arith;
  destination_group_id = omega arith;
}

protocol-IsWellFlagged : IsWellFlagged protocol
protocol-IsWellFlagged = record {
  exchange_flags = omega arith;
  protocol_opcode = omega arith;
  exchange_id = omega arith;
  protocol_id = omega arith;
  vendor_id = omega arith;
  ack_message_counter = omega arith;
  vendor_bit = λ h. refl;
  ack_bit = λ h. cc;
}

decode-encode_message_header_example :
    decode_message_header (encode_message_header header ++ (1 ∷ 2 ∷ []))
    ≡ ok (on_wire header, header_size header)
decode-encode_message_header_example =
    decode-encode_message_header header (1 ∷ 2 ∷ []) header-IsWellSized

decode-encode_protocol_header_example :
    decode_protocol_header (encode_protocol_header protocol ++ (1 ∷ []))
    ≡ ok (proto_on_wire protocol, protocol_size protocol)
decode-encode_protocol_header_example =
    decode-encode_protocol_header protocol (1 ∷ []) protocol-IsWellFlagged

abbrev header_bytes : List ℕ
header_bytes = 2 ∷ 44 ∷ 1 ∷ 0 ∷ 112 ∷ 17 ∷ 1 ∷ 0 ∷ 9 ∷ 2 ∷ 77 ∷ []

abbrev group_header : MessageHeader
group_header = record {
  flags = 2;
  session_id = 300;
  security_flags = 0;
  message_counter = 70000;
  source_node_id = 0;
  has_source_node_id = false;
  destination_node_id = 0;
  has_destination_node_id = false;
  destination_group_id = 521;
  has_destination_group_id = true;
}

header_decoded : decode_message_header header_bytes ≡ ok (group_header, 10)
unfolding decode_message_header decode_source decode_destination
header_decoded = refl

abbrev protocol_bytes : List ℕ
protocol_bytes = 7 ∷ 2 ∷ 1 ∷ 2 ∷ 1 ∷ 0 ∷ 99 ∷ 0 ∷ 0 ∷ 0 ∷ []

abbrev decoded_protocol : ProtocolHeader
decoded_protocol = record protocol { exchange_flags = 7 }

protocol_decoded : decode_protocol_header protocol_bytes ≡ ok (decoded_protocol, 10)
unfolding decode_protocol_header decode_vendor decode_ack
protocol_decoded = refl

abbrev message : Message
message = record { header = header; protocol = protocol; payload = 21 ∷ 22 ∷ 23 ∷ [] }

message-IsSendable : IsSendable message
message-IsSendable = record {
  header = header-IsWellSized;
  protocol = protocol-IsWellFlagged;
  payload = ground arith;
  fits = omega arith;
}

abbrev sender : Session
sender = record {
  id = 7;
  peer_session_id = 300;
  type_ = case;
  local_node_id = 1;
  peer_node_id = 2;
  encrypt_key = some key;
  decrypt_key = none;
  attestation_challenge = [];
  local_counter = 70000;
  peer_counter = fresh_counter;
}

abbrev receiver : Session
receiver = record sender {
  local_node_id = 2;
  peer_node_id = 1;
  encrypt_key = none;
  decrypt_key = some key;
}

paired : IsPaired key message sender receiver
unfolding is_secured
paired = record {
  key_size = refl;
  sender_secured = refl;
  receiver_secured = refl;
  sender_key = refl;
  receiver_key = refl;
  node = λ h. refl;
}

decode-encode_clear_example :
    (encode block_of message none >>= λ wire. decode block_of wire none)
    ≡ ok (message_on_wire message)
unfolding secured
decode-encode_clear_example =
    decode-encode_clear block_of message none none message-IsSendable refl refl

decode-encode_secured_example :
    (encode block_of message (some sender) >>= λ wire. decode block_of wire (some receiver))
    ≡ ok (message_on_wire message)
decode-encode_secured_example =
    decode-encode_secured block_of block_cipher key message sender receiver message-IsSendable
      paired

decode_message_header_bounds_example :
    (8 ≤ 10) × (10 ≤ length header_bytes) × (10 ≡ header_size group_header)
decode_message_header_bounds_example =
    decode_message_header_bounds header_bytes group_header 10 header_decoded

decode_protocol_header_bounds_example :
    (6 ≤ 10) × (10 ≤ length protocol_bytes) × (10 ≡ protocol_size decoded_protocol)
decode_protocol_header_bounds_example =
    decode_protocol_header_bounds protocol_bytes decoded_protocol 10 protocol_decoded
