-- ===== src/Interaction/Client.antt =====
-- internal/interaction/client.go: the messages that the client sends, and the replies it accepts.
pub mod Read
pub mod Complete
pub mod Operations
pub mod Subscribe
use matter_cli.Prelude.{
  ℕ, ◌+◌, ◌-◌, Bool, true, false, if◌then◌else◌, ltb, ◌==◌, ◌&&◌, Option, none, some, List, [], ◌∷◌,
  ◌++◌, length, get_or, take, bit_or, Result, ok, err,
}
use matter_cli.Interaction.Status.{
  StatusError, StatusResponseMessage, protocol_id, status_from_code, opcode_status_response,
}
use matter_cli.Interaction.Reports.{
  ReadRequest, WriteRequest, InvokeRequest, ReportData, WriteResponse, InvokeResponse,
  SubscribeRequest, SubscribeResponse,
}
use matter_cli.Protocol.Message.{
  Message, MessageHeader, ProtocolHeader, ex_flag_reliable, ex_flag_ack,
}
use matter_cli.Protocol.Exchange.{Exchange, stamp}
use matter_cli.Tlv.Types.{type_end_of_container}

-- Why `Receive` gives no message.
pub data ReceiveError : Type 0 where
  exchange_closed context_ended : ReceiveError

-- One for each error that an operation returns; the operation adds a text to it.
pub data ClientError : Type 0 where
  marshaling sending no_results : ClientError
  receiving : ReceiveError → ClientError
  rejected : StatusError → ClientError
  undecodable : ℕ → ClientError
  unexpected_opcode : ℕ → ClientError

-- `tlv.Marshal` and `tlv.Unmarshal` at the types of the messages; `none` is their error.
pub record Wire : Type 0 where
  pub put_read : ReadRequest → Option (List ℕ)
  pub put_write : WriteRequest → Option (List ℕ)
  pub put_invoke : InvokeRequest → Option (List ℕ)
  pub put_timed : ℕ → Option (List ℕ)
  pub put_subscribe : SubscribeRequest → Option (List ℕ)
  pub put_status : StatusResponseMessage → Option (List ℕ)
  pub get_status : List ℕ → Option StatusResponseMessage
  pub get_report : List ℕ → Option ReportData
  pub get_write : List ℕ → Option WriteResponse
  pub get_invoke : List ℕ → Option InvokeResponse
  pub get_subscribe : List ℕ → Option SubscribeResponse

-- An open exchange with its peer: what the calls of `Receive` give, in order, whether the transport
-- takes the message with that number, and the messages it has taken. After the last item of
-- `inbox`, `Receive` waits until the context ends.
pub record Link : Type 0 where
  pub exchange : Exchange
  pub inbox : List (Result ReceiveError Message)
  pub can_send : ℕ → Bool
  pub sent : List Message

-- `InteractionModelRevision` before the end of the outer struct.
unfoldable pub with_revision : List ℕ → List ℕ
with_revision bytes =
    let last = length bytes - 1 in
    if ltb 0 (length bytes) && get_or bytes last 0 == type_end_of_container
    then take last bytes ++ 0x24 ∷ 0xff ∷ 0x0b ∷ type_end_of_container ∷ []
    else bytes

abbrev no_header : MessageHeader
no_header = record {
  flags = 0;
  session_id = 0;
  security_flags = 0;
  message_counter = 0;
  source_node_id = 0;
  has_source_node_id = false;
  destination_node_id = 0;
  has_destination_node_id = false;
  destination_group_id = 0;
  has_destination_group_id = false;
}

abbrev plain_header : ℕ → ProtocolHeader
plain_header opcode = record {
  exchange_flags = ex_flag_reliable;
  protocol_opcode = opcode;
  exchange_id = 0;
  protocol_id = protocol_id;
  vendor_id = 0;
  has_vendor_id = false;
  ack_message_counter = 0;
  has_ack_counter = false;
}

unfoldable pub with_ack : Option ℕ → ProtocolHeader → ProtocolHeader
with_ack none h = h
with_ack (some counter) h = record h {
  exchange_flags = bit_or h.exchange_flags ex_flag_ack;
  has_ack_counter = true;
  ack_message_counter = counter;
}

-- The message as it is given to `Send`; `ack` is the counter to acknowledge with it.
unfoldable pub im_message : ℕ → List ℕ → Option ℕ → Message
im_message opcode bytes ack = record {
  header = no_header;
  protocol = with_ack ack (plain_header opcode);
  payload = bytes;
}

unfoldable pub transmit : Link → Message → Result ClientError (Unit {0}) × Link
transmit link msg =
    if link.can_send (length link.sent)
    then (ok tt, record link { sent = link.sent ++ stamp link.exchange msg ∷ [] })
    else (err sending, link)

-- `sendIMMessageWithACK`, on what `tlv.Marshal` gave.
unfoldable pub send_im_message_with_ack :
    Link → ℕ → Option (List ℕ) → Option ℕ → Result ClientError (Unit {0}) × Link
send_im_message_with_ack link opcode none ack = (err marshaling, link)
send_im_message_with_ack link opcode (some bytes) ack =
    transmit link (im_message opcode (with_revision bytes) ack)

unfoldable pub send_im_message : Link → ℕ → Option (List ℕ) → Result ClientError (Unit {0}) × Link
send_im_message link opcode bytes = send_im_message_with_ack link opcode bytes none

unfoldable pub status_result : ℕ → Result ClientError (Unit {0})
status_result code = elim (status_from_code code) [ none ↦ ok tt | some e ↦ err (rejected e) ]

unfoldable pub check_status_response : Wire → Message → Result ClientError (Unit {0})
check_status_response wire msg =
    if msg.protocol.protocol_opcode == opcode_status_response
    then (elim (wire.get_status msg.payload) [
      | none ↦ err (undecodable opcode_status_response)
      | some m ↦ status_result m.status
    ])
    else ok tt

-- A reply that must have that opcode, decoded.
unfoldable pub decode_reply {ℓ} :
    {A : Type ℓ} → (List ℕ → Option A) → ℕ → Message → Result ClientError A
decode_reply decode opcode msg =
    if msg.protocol.protocol_opcode == opcode
    then (elim (decode msg.payload) [ none ↦ err (undecodable opcode) | some a ↦ ok a ])
    else err (unexpected_opcode msg.protocol.protocol_opcode)

unfoldable pub receive_first :
    Link → List (Result ReceiveError Message) → Result ClientError Message × Link
receive_first link [] = (err (receiving context_ended), link)
receive_first link (err e ∷ rest) = (err (receiving e), record link { inbox = rest })
receive_first link (ok msg ∷ rest) = (ok msg, record link { inbox = rest })

-- `Receive`, where the operation calls it once.
unfoldable pub receive : Link → Result ClientError Message × Link
receive link = receive_first link link.inbox
