-- ===== src/Interaction/Client/Subscribe/Batches.antt =====
-- internal/interaction/client.go: the batches that a subscription delivers.
use matter_cli.Prelude.{
  ℕ, Bool, ◌==◌, none, All, sym, append-nil, arith, true, false, if◌then◌else◌, some, List, [], ◌∷◌,
  ◌++◌, append_assoc, Result, ok, ◌≡◌, refl, ap, ◌∙◌,
}
use matter_cli.Interaction.Status.{
  status_from_ib, status_success, opcode_report_data, opcode_status_response,
}
use matter_cli.Interaction.Reports.{AttributeReport, ReportData}
use matter_cli.Interaction.Client.{ReceiveError, Wire}
use matter_cli.Interaction.Client.Read.{is_more, send_status, send_status-ok, after}
use matter_cli.Interaction.Client.Subscribe.{
  Ongoing, add_batch, with_report, split_attribute_reports, finish_cycle, take_report, take_message,
  report_step, run_reports,
}
use matter_cli.Protocol.Message.{Message}

-- The messages of one cycle: report data, each but the last with more to come.
pub data Cycle (wire : Wire)
    : List AttributeReport → List (Result ReceiveError Message) → Type 0 where
  final :
      (msg : Message) (report : ReportData)
      → msg.protocol.protocol_opcode ≡ opcode_report_data
      → wire.get_report msg.payload ≡ some report
      → is_more report ≡ false
      → Cycle wire report.attribute_reports (ok msg ∷ [])
  partial :
      {reports : List AttributeReport} {messages : List (Result ReceiveError Message)}
      (msg : Message) (report : ReportData)
      → msg.protocol.protocol_opcode ≡ opcode_report_data
      → wire.get_report msg.payload ≡ some report
      → is_more report ≡ true
      → Cycle wire reports messages
      → Cycle wire (report.attribute_reports ++ reports) (ok msg ∷ messages)

-- A report that is no failure: without a status, or with that of success.
unfoldable pub is_clean : AttributeReport → Bool
is_clean r = elim r.status [ none ↦ true | some s ↦ s.status.status == 0 ]

-- The reports with data and no status.
unfoldable pub with_data : List AttributeReport → List AttributeReport
with_data [] = []
with_data (r ∷ rs) =
    let rest = with_data rs in
    elim r.status [ some _ ↦ rest | none ↦ elim r.data_ [ some _ ↦ r ∷ rest | none ↦ rest ] ]

-- The messages of cycles without a failure, and the reports with data of each.
pub data Cycles (wire : Wire)
    : List (List AttributeReport) → List (Result ReceiveError Message) → Type 0 where
  none_yet : Cycles wire [] []
  cycle :
      {reports : List AttributeReport} {messages rest : List (Result ReceiveError Message)}
      {batches : List (List AttributeReport)}
      → Cycle wire reports messages
      → All (λ r. is_clean r ≡ true) reports
      → Cycles wire batches rest
      → Cycles wire (with_data reports ∷ batches) (messages ++ rest)

unfoldable pub non_empty : List (List AttributeReport) → List (List AttributeReport)
non_empty [] = []
non_empty ([] ∷ batches) = non_empty batches
non_empty ((r ∷ rs) ∷ batches) = (r ∷ rs) ∷ non_empty batches

add_batch-non_empty :
    (before batches : List (List AttributeReport)) (batch : List AttributeReport)
    → add_batch before batch ++ non_empty batches ≡ before ++ non_empty (batch ∷ batches)
unfolding add_batch non_empty
add_batch-non_empty before batches [] = refl
add_batch-non_empty before batches (r ∷ rs) = append_assoc before ((r ∷ rs) ∷ []) _

split_attribute_reports-clean :
    (reports : List AttributeReport)
    → All (λ r. is_clean r ≡ true) reports
    → split_attribute_reports reports ≡ ok (with_data reports)
unfolding split_attribute_reports with_data is_clean status_from_ib with_report
split_attribute_reports-clean [] all = refl
split_attribute_reports-clean (r ∷ rs) (c, all) =
    ground (arith, split_attribute_reports-clean rs all)

report_step-report :
    (wire : Wire) (s : Ongoing) (msg : Message) (report : ReportData)
    → msg.protocol.protocol_opcode ≡ opcode_report_data
    → wire.get_report msg.payload ≡ some report
    → report_step wire s (ok msg) ≡ take_report wire s report
unfolding report_step take_message
report_step-report wire s msg report o d = rw (report_step, take_message, o, d) refl

run_reports-running :
    (wire : Wire) (s : Ongoing) (r : Result ReceiveError Message)
    (rest : List (Result ReceiveError Message))
    → s.running ≡ true
    → run_reports wire s (r ∷ rest) ≡ run_reports wire (report_step wire s r) rest
unfolding run_reports
run_reports-running wire s r rest e =
    ap (λ b. if b then run_reports wire (report_step wire s r) rest else s) e

-- The state after a report that is acknowledged, before a look at whether it ends its cycle.
abbrev gathered : Ongoing → List ℕ → ReportData → Ongoing
gathered s bytes report = record s {
  link = after s.link opcode_status_response bytes;
  accumulated = s.accumulated ++ report.attribute_reports;
}

acked :
    (wire : Wire) (bytes : List ℕ) (s : Ongoing)
    → wire.put_status (record { status = status_success }) ≡ some bytes
    → ((n : ℕ) → s.link.can_send n ≡ true)
    → send_status wire s.link ≡ (ok tt, after s.link opcode_status_response bytes)
acked wire bytes s e c = send_status-ok wire s.link bytes e (c _)

take_report-more :
    (wire : Wire) (bytes : List ℕ) (s : Ongoing) (report : ReportData)
    → wire.put_status (record { status = status_success }) ≡ some bytes
    → ((n : ℕ) → s.link.can_send n ≡ true)
    → is_more report ≡ true
    → take_report wire s report ≡ gathered s bytes report
unfolding take_report
take_report-more wire bytes s report e c m =
    let done = acked wire bytes s e c in
    rw (take_report, ap (λ p. p.0) done, m, ap (λ p. p.1) done) refl

take_report-last :
    (wire : Wire) (bytes : List ℕ) (s : Ongoing) (report : ReportData)
    → wire.put_status (record { status = status_success }) ≡ some bytes
    → ((n : ℕ) → s.link.can_send n ≡ true)
    → is_more report ≡ false
    → take_report wire s report ≡ finish_cycle (gathered s bytes report)
unfolding take_report
take_report-last wire bytes s report e c m =
    let done = acked wire bytes s e c in
    rw (take_report, ap (λ p. p.0) done, m, ap (λ p. p.1) done) refl

finish_cycle-batch :
    (s : Ongoing) (data_reports : List AttributeReport)
    → split_attribute_reports s.accumulated ≡ ok data_reports
    → finish_cycle s ≡ record s { accumulated = []; batches = add_batch s.batches data_reports }
unfolding finish_cycle
finish_cycle-batch s data_reports e = rw (finish_cycle, e) refl

-- What the goroutine has done after those messages, which end a cycle.
record After (wire : Wire) (s : Ongoing) (messages : List (Result ReceiveError Message))
    (batches : List (List AttributeReport)) : Type 0 where
  state : Ongoing
  reaches :
      (rest : List (Result ReceiveError Message))
      → run_reports wire s (messages ++ rest) ≡ run_reports wire state rest
  clean : state.accumulated ≡ []
  delivered : state.batches ≡ batches
  faultless : state.errors ≡ s.errors
  runs : state.running ≡ true
  sends : (n : ℕ) → state.link.can_send n ≡ true

Cycle-After :
    (wire : Wire) {messages : List (Result ReceiveError Message)} {reports : List AttributeReport}
    (bytes : List ℕ) (s : Ongoing) (data_reports : List AttributeReport)
    → wire.put_status (record { status = status_success }) ≡ some bytes
    → ((n : ℕ) → s.link.can_send n ≡ true)
    → s.running ≡ true
    → split_attribute_reports (s.accumulated ++ reports) ≡ ok data_reports
    → Cycle wire reports messages
    → After wire s messages (add_batch s.batches data_reports)
Cycle-After wire bytes s data_reports e c run split (final msg report o d m) = record {
  state = record (gathered s bytes report) {
    accumulated = [];
    batches = add_batch s.batches data_reports;
  };
  reaches = λ rest.
      run_reports-running wire s (ok msg) rest run
      ∙ ap (λ t. run_reports wire t rest)
          (report_step-report wire s msg report o d
            ∙ take_report-last wire bytes s report e c m
            ∙ finish_cycle-batch (gathered s bytes report) data_reports split);
  clean = refl;
  delivered = refl;
  faultless = refl;
  runs = run;
  sends = c;
}
Cycle-After wire bytes s data_reports e c run split
      (partial {reports} {messages} msg report o d m more) =
    let next =
      Cycle-After wire bytes (gathered s bytes report) data_reports e c run
        (ap split_attribute_reports (append_assoc s.accumulated report.attribute_reports reports)
          ∙ split)
        more in
    record {
      state = next.state;
      reaches = λ rest.
          run_reports-running wire s (ok msg) (messages ++ rest) run
          ∙ ap (λ t. run_reports wire t (messages ++ rest))
              (report_step-report wire s msg report o d
                ∙ take_report-more wire bytes s report e c m)
          ∙ next.reaches rest;
      clean = next.clean;
      delivered = next.delivered;
      faultless = next.faultless;
      runs = next.runs;
      sends = next.sends;
    }

-- A goroutine that starts a cycle and receives the messages of any number of cycles, on a transport
-- that takes its acknowledgements, where no report has a status other than success, delivers the
-- reports with data of each cycle that has some as one batch, in order and however the cycle is
-- spread over messages; it reports no error and still runs.
pub run_reports-Cycles :
    (wire : Wire) {batches : List (List AttributeReport)}
    {messages : List (Result ReceiveError Message)} (bytes : List ℕ) (s : Ongoing)
    → wire.put_status (record { status = status_success }) ≡ some bytes
    → ((n : ℕ) → s.link.can_send n ≡ true)
    → s.running ≡ true
    → s.accumulated ≡ []
    → Cycles wire batches messages
    → let after = run_reports wire s messages in
      (after.batches ≡ s.batches ++ non_empty batches)
      × (after.errors ≡ s.errors)
      × (after.running ≡ true)
unfolding run_reports non_empty
run_reports-Cycles wire bytes s e c run clean none_yet = (sym (append-nil s.batches), refl, run)
run_reports-Cycles wire bytes s e c run clean
      (cycle {reports} {messages} {rest} {batches} one all more) =
    let split = split_attribute_reports-clean reports all in
    let step = Cycle-After wire bytes s (with_data reports) e c run (rw clean split) one in
    let (b, f, r) =
      run_reports-Cycles wire bytes step.state e step.sends step.runs step.clean more in
    let same = step.reaches rest in
    (
      ap (λ t. t.batches) same
          ∙ b
          ∙ ap (λ x. x ++ non_empty batches) step.delivered
          ∙ add_batch-non_empty s.batches batches (with_data reports),
      ap (λ t. t.errors) same ∙ f ∙ step.faultless,
      ap (λ t. t.running) same ∙ r,
    )
