-- ===== src/Interaction/Client/Read.antt =====
-- internal/interaction/client.go: Client.Read and the loop of its chunks.
use matter_cli.Prelude.{
  ℕ, suc, Bool, true, false, Option, none, some, List, [], ◌∷◌, ◌++◌, Result, ok, err, ◌>>=◌, ◌≡◌,
  refl, ap, ◌∙◌, append-nil, append_assoc, replicate, length,
}
use matter_cli.Interaction.Path.{AttributePath}
use matter_cli.Interaction.Status.{
  opcode_read_request, opcode_report_data, opcode_status_response, status_success,
}
use matter_cli.Interaction.Reports.{AttributeReport, ReadRequest, ReportData}
use matter_cli.Interaction.Reassemble.{reassemble_list_chunks}
use matter_cli.Interaction.Reassemble.Chunks.{Sent, reassemble_list_chunks-Sent}
use matter_cli.Interaction.Client.{
  ReceiveError, context_ended, ClientError, receiving, Wire, Link, send_im_message,
  check_status_response, decode_reply, im_message, with_revision, send_im_message_with_ack,
  transmit,
}
use matter_cli.Protocol.Message.{Message}
use matter_cli.Protocol.Exchange.{stamp}

unfoldable pub accept_report : Wire → Message → Result ClientError ReportData
accept_report wire msg =
    check_status_response wire msg >>= λ _. decode_reply wire.get_report opcode_report_data msg

unfoldable pub is_more : ReportData → Bool
is_more report = elim report.more_chunked_messages [ none ↦ false | some more ↦ more ]

unfoldable pub send_status : Wire → Link → Result ClientError (Unit {0}) × Link
send_status wire link =
    send_im_message link opcode_status_response
      (wire.put_status (record { status = status_success }))

-- The loop, with what `Receive` is still to give and the reports so far.
unfoldable pub read_loop :
    Wire
    → Link
    → List AttributeReport
    → List (Result ReceiveError Message)
    → Result ClientError (List AttributeReport) × Link
read_loop wire link reports [] = (err (receiving context_ended), record link { inbox = [] })
read_loop wire link reports (err e ∷ rest) = (err (receiving e), record link { inbox = rest })
read_loop wire link reports (ok msg ∷ rest) = elim (accept_report wire msg) [
  | err e ↦ (err e, record link { inbox = rest })
  | ok report ↦ elim (is_more report) [
    | false ↦ (
      ok (reassemble_list_chunks (reports ++ report.attribute_reports)),
      record link { inbox = rest },
    )
    | true ↦
        let (result, link') = send_status wire link in
        elim result [
          | err e ↦ (err e, record link' { inbox = rest })
          | ok _ ↦ read_loop wire link' (reports ++ report.attribute_reports) rest
        ]
  ]
]

abbrev pub read_request : List AttributePath → ReadRequest
read_request paths = record {
  attribute_requests = paths;
  event_requests = [];
  fabric_filtered = true;
}

-- `Client.Read` on the exchange that it has created.
unfoldable pub read :
    Wire → Link → List AttributePath → Result ClientError (List AttributeReport) × Link
read wire link paths =
    let bytes = wire.put_read (read_request paths) in
    let (result, link') = send_im_message link opcode_read_request bytes in
    elim result [ err e ↦ (err e, link') | ok _ ↦ read_loop wire link' [] link'.inbox ]

-- What `Receive` gives when a device answers with those reports, in as many messages as it wants:
-- each but the last says that more follow.
pub data Delivers (wire : Wire)
    : ℕ → List AttributeReport → List (Result ReceiveError Message) → Type 0 where
  last :
      {rest : List (Result ReceiveError Message)} (msg : Message) (report : ReportData)
      → accept_report wire msg ≡ ok report
      → is_more report ≡ false
      → Delivers wire 0 report.attribute_reports (ok msg ∷ rest)
  more :
      {chunks : ℕ} {reports : List AttributeReport} {rest : List (Result ReceiveError Message)}
      (msg : Message) (report : ReportData)
      → accept_report wire msg ≡ ok report
      → is_more report ≡ true
      → Delivers wire chunks reports rest
      → Delivers wire (suc chunks) (report.attribute_reports ++ reports) (ok msg ∷ rest)

-- The acknowledgement of a chunk as the transport gets it.
abbrev pub ack_of : Link → List ℕ → Message
ack_of link bytes =
    stamp link.exchange (im_message opcode_status_response (with_revision bytes) none)

-- The link after a message that the transport takes.
abbrev pub after : Link → ℕ → List ℕ → Link
after link opcode bytes = record link {
  sent = link.sent ++ stamp link.exchange (im_message opcode (with_revision bytes) none) ∷ [];
}

pub send_im_message-ok :
    (link : Link) (opcode : ℕ) (encoded : Option (List ℕ)) (bytes : List ℕ)
    → encoded ≡ some bytes
    → link.can_send (length link.sent) ≡ true
    → send_im_message link opcode encoded ≡ (ok tt, after link opcode bytes)
unfolding send_im_message send_im_message_with_ack transmit
send_im_message-ok link opcode encoded bytes e c =
    rw (send_im_message, e, send_im_message_with_ack, transmit, c) refl

pub send_status-ok :
    (wire : Wire) (link : Link) (bytes : List ℕ)
    → wire.put_status (record { status = status_success }) ≡ some bytes
    → link.can_send (length link.sent) ≡ true
    → send_status wire link ≡ (ok tt, after link opcode_status_response bytes)
unfolding send_status
send_status-ok wire link bytes e c = send_im_message-ok link opcode_status_response _ bytes e c

read_loop-Delivers :
    (wire : Wire) (bytes : List ℕ) (link : Link) (before : List AttributeReport) {chunks : ℕ}
    {reports : List AttributeReport} {inbox : List (Result ReceiveError Message)}
    → wire.put_status (record { status = status_success }) ≡ some bytes
    → ((n : ℕ) → link.can_send n ≡ true)
    → Delivers wire chunks reports inbox
    → (left : List (Result ReceiveError Message)) × (read_loop wire link before inbox ≡ (
      ok (reassemble_list_chunks (before ++ reports)),
      record link { inbox = left; sent = link.sent ++ replicate chunks (ack_of link bytes) },
    ))
unfolding read_loop
read_loop-Delivers wire bytes link before e c (last {rest} msg report a m) =
    (rest, rw (read_loop, a, m, append-nil link.sent) refl)
read_loop-Delivers wire bytes link before e c (more {chunks} {reports} {rest} msg report a m d) =
    let acked = after link opcode_status_response bytes in
    let done = send_status-ok wire link bytes e (c _) in
    let (left, next) =
      read_loop-Delivers wire bytes acked (before ++ report.attribute_reports) e c d in
    (
      left,
      rw (read_loop, a, m, ap (λ p. p.0) done, ap (λ p. p.1) done)
          (next
            ∙ rw
                (
                  append_assoc before report.attribute_reports reports,
                  append_assoc link.sent (ack_of link bytes ∷ [])
                      (replicate chunks (ack_of link bytes)),
                )
                refl),
    )

-- A read of a device that answers, on a transport that takes every message, gives the values that
-- the device had, one report for each, whether it sent a list whole or in fragments and however it
-- spread the reports over messages. The client sends the request and then one acknowledgement for
-- each message but the last.
pub read-Delivers :
    (wire : Wire) (link : Link) (paths : List AttributePath) (request ack : List ℕ) {chunks : ℕ}
    {values reports : List AttributeReport}
    → wire.put_read (read_request paths) ≡ some request
    → wire.put_status (record { status = status_success }) ≡ some ack
    → ((n : ℕ) → link.can_send n ≡ true)
    → Delivers wire chunks reports link.inbox
    → Sent values reports
    → ((read wire link paths).0 ≡ ok values)
      × ((read wire link paths).1.sent
          ≡ link.sent
            ++ stamp link.exchange (im_message opcode_read_request (with_revision request) none)
              ∷ []
            ++ replicate chunks (ack_of link ack))
unfolding read
read-Delivers wire link paths request ack er ea c d sent =
    let asked = send_im_message-ok link opcode_read_request _ request er (c _) in
    let (left, run) =
      read_loop-Delivers wire ack (after link opcode_read_request request) [] ea c d in
    (
      rw (read, ap (λ p. p.0) asked, ap (λ p. p.1) asked)
          (ap (λ p. p.0) run ∙ ap ok (reassemble_list_chunks-Sent sent)),
      rw (read, ap (λ p. p.0) asked, ap (λ p. p.1) asked) (ap (λ p. p.1.sent) run),
    )
