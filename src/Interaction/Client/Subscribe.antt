-- ===== src/Interaction/Client/Subscribe.antt =====
-- internal/interaction/client.go: Client.Subscribe, the first reports and the goroutine that receives
-- the later ones.
pub mod Batches
use matter_cli.Prelude.{
  ℕ, Bool, true, false, if◌then◌else◌, ◌==◌, Option, none, some, List, [], ◌∷◌, ◌++◌, Result, ok,
  err, ◌>>=◌,
}
use matter_cli.Interaction.Path.{AttributePath}
use matter_cli.Interaction.Status.{
  StatusError, status_from_ib, status_from_code, opcode_status_response, opcode_report_data,
  opcode_subscribe_request, opcode_subscribe_response,
}
use matter_cli.Interaction.Reports.{
  AttributeReport, ReportData, SubscribeRequest, SubscribeResponse,
}
use matter_cli.Interaction.Client.{
  ReceiveError, exchange_closed, context_ended, ClientError, receiving, rejected, undecodable, Wire,
  Link, send_im_message, decode_reply, receive_first,
}
use matter_cli.Interaction.Client.Read.{accept_report, is_more, send_status}
use matter_cli.Protocol.Message.{Message, ProtocolHeader}

unfoldable pub with_report {ℓ} :
    {E : Type ℓ}
    → AttributeReport
    → Result E (List AttributeReport)
    → Result E (List AttributeReport)
with_report r (ok rs) = ok (r ∷ rs)
with_report r (err e) = err e

-- The first status that is not success is the result.
unfoldable pub split_attribute_reports :
    List AttributeReport → Result StatusError (List AttributeReport)
split_attribute_reports [] = ok []
split_attribute_reports (r ∷ rs) =
    let rest = split_attribute_reports rs in
    elim r.status [
      | some s ↦ elim (status_from_ib s.status) [ some e ↦ err e | none ↦ rest ]
      | none ↦ elim r.data_ [ some d ↦ with_report r rest | none ↦ rest ]
    ]

-- The loop of the first reports, with what `Receive` is still to give.
unfoldable pub prime_loop :
    Wire
    → Link
    → List AttributeReport
    → List (Result ReceiveError Message)
    → Result ClientError (List AttributeReport) × Link
prime_loop wire link reports [] = (err (receiving context_ended), record link { inbox = [] })
prime_loop wire link reports (err e ∷ rest) = (err (receiving e), record link { inbox = rest })
prime_loop wire link reports (ok msg ∷ rest) = elim (accept_report wire msg) [
  | err e ↦ (err e, record link { inbox = rest })
  | ok report ↦
      let all = reports ++ report.attribute_reports in
      let (result, link') = send_status wire link in
      elim result [
        | err e ↦ (err e, record link' { inbox = rest })
        | ok _ ↦ elim (is_more report) [
          | false ↦ (ok all, record link' { inbox = rest })
          | true ↦ prime_loop wire link' all rest
        ]
      ]
]

-- The state of the goroutine: the reports of the cycle so far, the batches put on `Reports`, the
-- errors put on `Errors`, and whether it still runs.
pub record Ongoing : Type 0 where
  pub link : Link
  pub accumulated : List AttributeReport
  pub batches : List (List AttributeReport)
  pub errors : List ClientError
  pub running : Bool

unfoldable pub add_batch :
    List (List AttributeReport) → List AttributeReport → List (List AttributeReport)
add_batch batches [] = batches
add_batch batches (r ∷ rs) = batches ++ (r ∷ rs) ∷ []

-- An `Ongoing` ends at its first error.
unfoldable pub fail : Ongoing → ClientError → Ongoing
fail s e = record s { errors = s.errors ++ e ∷ []; running = false }

unfoldable pub finish_cycle : Ongoing → Ongoing
finish_cycle s = elim (split_attribute_reports s.accumulated) [
  | ok data_reports ↦ record s { accumulated = []; batches = add_batch s.batches data_reports }
  | err e ↦ fail (record s { accumulated = [] }) (rejected e)
]

unfoldable pub take_report : Wire → Ongoing → ReportData → Ongoing
take_report wire s report =
    let (result, link') = send_status wire s.link in
    let s' : Ongoing = record s {
      link = link';
      accumulated = s.accumulated ++ report.attribute_reports;
    } in
    elim result [
      | err e ↦ fail s' e
      | ok _ ↦ elim (is_more report) [ true ↦ s' | false ↦ finish_cycle s' ]
    ]

unfoldable pub take_status : Ongoing → ℕ → Ongoing
take_status s code = elim (status_from_code code) [ none ↦ s | some e ↦ fail s (rejected e) ]

unfoldable pub take_message : Wire → Ongoing → Message → Ongoing
take_message wire s msg =
    let opcode = msg.protocol.protocol_opcode in
    if opcode == opcode_status_response
    then (elim (wire.get_status msg.payload) [ none ↦ s | some m ↦ take_status s m.status ])
    else if opcode == opcode_report_data
    then (elim (wire.get_report msg.payload) [
      | none ↦ fail s (undecodable opcode_report_data)
      | some report ↦ take_report wire s report
    ])
    else s

-- One call of `Receive`; the end of the context is a cancellation, and no error.
unfoldable pub report_step : Wire → Ongoing → Result ReceiveError Message → Ongoing
report_step wire s (ok msg) = take_message wire s msg
report_step wire s (err exchange_closed) = fail s (receiving exchange_closed)
report_step wire s (err context_ended) = record s { running = false }

unfoldable pub run_reports : Wire → Ongoing → List (Result ReceiveError Message) → Ongoing
run_reports wire s [] = s
run_reports wire s (r ∷ rest) =
    let after = run_reports wire (report_step wire s r) rest in if s.running then after else s

-- `Subscription`, with the goroutine as it starts.
pub record Subscription : Type 0 where
  pub id : ℕ
  pub max_interval : ℕ
  pub ongoing : Ongoing

abbrev pub subscribe_request : List AttributePath → ℕ → ℕ → SubscribeRequest
subscribe_request paths min_interval max_interval = record {
  keep_subscriptions = true;
  min_interval_floor = min_interval;
  max_interval_ceiling = max_interval;
  attribute_requests = paths;
  event_requests = [];
  fabric_filtered = true;
}

unfoldable pub establish :
    Wire → Link → List AttributeReport → Message → Result ClientError Subscription
establish wire link data_reports msg =
    decode_reply wire.get_subscribe opcode_subscribe_response msg >>= λ response. ok (record {
      id = response.subscription_id;
      max_interval = response.max_interval;
      ongoing = record {
        link = link;
        accumulated = [];
        batches = add_batch [] data_reports;
        errors = [];
        running = true;
      };
    })

unfoldable pub await_response :
    Wire → Link → List AttributeReport → Result ClientError Subscription × Link
await_response wire link reports = elim (split_attribute_reports reports) [
  | err e ↦ (err (rejected e), link)
  | ok data_reports ↦
      let (received, left) = receive_first link link.inbox in
      elim received [
        | err e ↦ (err e, left)
        | ok msg ↦ (establish wire left data_reports msg, left)
      ]
]

-- `Client.Subscribe` on the exchange that it has created.
unfoldable pub subscribe :
    Wire → Link → List AttributePath → ℕ → ℕ → Result ClientError Subscription × Link
subscribe wire link paths min_interval max_interval =
    let request = wire.put_subscribe (subscribe_request paths min_interval max_interval) in
    let (result, asked) = send_im_message link opcode_subscribe_request request in
    elim result [
      | err e ↦ (err e, asked)
      | ok _ ↦
          let (primed, left) = prime_loop wire asked [] asked.inbox in
          elim primed [ err e ↦ (err e, left) | ok reports ↦ await_response wire left reports ]
    ]
