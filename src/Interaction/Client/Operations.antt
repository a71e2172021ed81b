-- ===== src/Interaction/Client/Operations.antt =====
-- internal/interaction/client.go: Client.Write, and Client.Invoke with and without a timed request.
pub mod Timed
use matter_cli.Prelude.{
  ℕ, ◌+◌, Bool, true, false, ltb, Option, none, some, List, [], ◌∷◌, ◌++◌, Result, ok, err, ◌>>=◌,
  Result-cases, inl, inr, ◌≡◌, refl, ap, length,
}
use matter_cli.Interaction.Path.{CommandPath}
use matter_cli.Interaction.Status.{
  opcode_write_request, opcode_write_response, opcode_invoke_request, opcode_invoke_response,
  opcode_timed_request,
}
use matter_cli.Interaction.Reports.{
  AttributeWrite, AttributeStatus, WriteRequest, InvokeRequest, InvokeResponse, InvokeResponseIb,
}
use matter_cli.Interaction.Client.{
  ReceiveError, ClientError, no_results, Wire, Link, send_im_message, send_im_message_with_ack,
  transmit, check_status_response, decode_reply, receive, im_message, with_revision,
}
use matter_cli.Protocol.Message.{Message, MessageHeader}
use matter_cli.Protocol.Exchange.{stamp}

-- One step of an operation, and what it does after that step unless it has failed.
infixl 5 ◌then◌
abbrev pub ◌then◌ {ℓ κ} :
    {A : Type ℓ} {B : Type κ}
    → Result ClientError A × Link
    → (A → Link → Result ClientError B × Link)
    → Result ClientError B × Link
(r, link) then f = elim r [ ok a ↦ f a link | err e ↦ (err e, link) ]

abbrev pub write_request : List AttributeWrite → WriteRequest
write_request writes = record {
  suppress_response = false;
  timed_request = false;
  write_requests = writes;
  more_chunked_messages = none;
}

unfoldable pub accept_write : Wire → Message → Result ClientError (List AttributeStatus)
accept_write wire msg = check_status_response wire msg >>= λ _.
    decode_reply wire.get_write opcode_write_response msg >>= λ response.
    ok response.write_responses

-- `Client.Write` on the exchange that it has created.
unfoldable pub write :
    Wire → Link → List AttributeWrite → Result ClientError (List AttributeStatus) × Link
write wire link writes =
    send_im_message link opcode_write_request (wire.put_write (write_request writes))
    then λ _ asked. receive asked then λ msg left. (accept_write wire msg, left)

abbrev pub invoke_request : CommandPath → List ℕ → ℕ → InvokeRequest
invoke_request path fields timed_ms = record {
  suppress_response = false;
  timed_request = ltb 0 timed_ms;
  invoke_requests = record { path = path; fields = fields } ∷ [];
}

unfoldable pub first_result : InvokeResponse → Result ClientError InvokeResponseIb
first_result response = elim response.invoke_responses [ [] ↦ err no_results | r ∷ _ ↦ ok r ]

unfoldable pub accept_invoke : Wire → Message → Result ClientError InvokeResponseIb
accept_invoke wire msg = check_status_response wire msg >>= λ _.
    decode_reply wire.get_invoke opcode_invoke_response msg >>= first_result

-- The timed request, and the counter that the invoke request is then to acknowledge.
unfoldable pub timed_step : Wire → Link → ℕ → Result ClientError (Option ℕ) × Link
timed_step wire link timed_ms = elim (ltb 0 timed_ms) [
  | false ↦ (ok none, link)
  | true ↦ send_im_message link opcode_timed_request (wire.put_timed timed_ms) then λ _ asked.
      receive asked then λ msg left.
      (check_status_response wire msg >>= λ _. ok (some msg.header.message_counter), left)
]

-- `invokeInternal` on the exchange that it has created; a nil `fields` is the empty list.
unfoldable pub invoke_internal :
    Wire → Link → CommandPath → List ℕ → ℕ → Result ClientError InvokeResponseIb × Link
invoke_internal wire link path fields timed_ms = timed_step wire link timed_ms then λ ack ready.
    send_im_message_with_ack ready opcode_invoke_request
      (wire.put_invoke (invoke_request path fields timed_ms)) ack
    then λ _ asked. receive asked then λ msg left. (accept_invoke wire msg, left)
