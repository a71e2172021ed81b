-- ===== src/Tests/Interaction.antt =====
-- internal/interaction at concrete inputs.
use matter_cli.Prelude.{
  ℕ, err, ◌≡◌, refl, none, some, true, if◌then◌else◌, ◌==◌, List, [], ◌∷◌, ◌++◌, Result, ok, length,
  replicate,
}
use matter_cli.Interaction.Path.{AttributePath, absent, null, is_null, CommandPath}
use matter_cli.Interaction.Status.{opcode_status_response, opcode_read_request}
use matter_cli.Interaction.Reports.{AttributeData, AttributeReport, ReportData}
use matter_cli.Interaction.Reassemble.{
  reassemble_list_chunks, attribute_report_key, data_key, keyed, path_key, concat,
}
use matter_cli.Interaction.Reassemble.Chunks.{
  array_of, done, append, chunked, Sent, nothing, next, reassemble_list_chunks-Sent,
}
use matter_cli.Interaction.Client.{
  ReceiveError, exchange_closed, send_im_message, send_im_message_with_ack, transmit, receive,
  receive_first, Wire, Link, im_message, with_revision, check_status_response, decode_reply,
}
use matter_cli.Interaction.Client.Read.{
  read, accept_report, is_more, Delivers, last, more, ack_of, read-Delivers,
}
use matter_cli.Interaction.Client.Operations.{timed_step, invoke_internal}
use matter_cli.Interaction.Client.Subscribe.{Ongoing, run_reports}
use matter_cli.Interaction.Client.Subscribe.Batches.{
  Cycles, final, partial, none_yet, cycle, is_clean, with_data, non_empty, run_reports-Cycles,
}
use matter_cli.Protocol.Message.{Message}
use matter_cli.Protocol.Exchange.{stamp}
use matter_cli.Tests.Exchanges.{opened, reply}

abbrev path : AttributePath
path = record {
  enable_tag_compression = none;
  node_id = none;
  endpoint_id = some 1;
  cluster_id = some 6;
  attribute_id = some 0;
  list_index = absent;
}

abbrev data_of : List ℕ → AttributeData
data_of raw = record { data_version = 3; path = path; data_ = raw }

abbrev report_of : AttributeData → AttributeReport
report_of d = record { status = none; data_ = some d }

-- A list with the item 1, and the items 2 and 3 that follow it.
abbrev marker : AttributeReport
marker = report_of (data_of (array_of (4 ∷ 1 ∷ [])))

abbrev item : ℕ → AttributeData
item n = record { data_version = 3; path = record path { list_index = null }; data_ = 4 ∷ n ∷ [] }

abbrev value : AttributeReport
value = report_of (data_of (array_of (4 ∷ 1 ∷ 4 ∷ 2 ∷ 4 ∷ 3 ∷ [])))

abbrev fragments : List AttributeReport
fragments = marker ∷ report_of (item 2) ∷ report_of (item 3) ∷ []

in_fragments : Sent (value ∷ []) fragments
unfolding attribute_report_key data_key keyed path_key is_null concat
in_fragments =
    next
      (chunked marker (record { endpoint = 1; cluster = 6; attribute = 0 })
        (data_of (array_of (4 ∷ 1 ∷ []))) (4 ∷ 1 ∷ []) refl refl refl
        (append (report_of (item 2)) (item 2) refl refl
          (append (report_of (item 3)) (item 3) refl refl done)))
      nothing

reassemble_list_chunks-Sent_example : reassemble_list_chunks fragments ≡ value ∷ []
reassemble_list_chunks-Sent_example = reassemble_list_chunks-Sent in_fragments

-- Messages of one byte: the first two fragments with more to come, and the last.
abbrev first_part : ReportData
first_part = record {
  subscription_id = none;
  attribute_reports = marker ∷ report_of (item 2) ∷ [];
  more_chunked_messages = some true;
  suppress_response = none;
}

abbrev last_part : ReportData
last_part = record {
  subscription_id = none;
  attribute_reports = report_of (item 3) ∷ [];
  more_chunked_messages = none;
  suppress_response = none;
}

abbrev wire : Wire
wire = record {
  put_read = λ _. some (1 ∷ 24 ∷ []);
  put_write = λ _. none;
  put_invoke = λ _. some (2 ∷ 24 ∷ []);
  put_timed = λ _. some (3 ∷ 24 ∷ []);
  put_subscribe = λ _. none;
  put_status = λ _. some (4 ∷ 24 ∷ []);
  get_status = λ _. none;
  get_report = λ bytes. some (if length bytes == 0 then first_part else last_part);
  get_write = λ _. none;
  get_invoke = λ _. none;
  get_subscribe = λ _. none;
}

abbrev last_message : Message
last_message = record reply { payload = 9 ∷ [] }

abbrev link : Link
link = record {
  exchange = opened;
  inbox = ok reply ∷ ok last_message ∷ [];
  can_send = λ _. true;
  sent = [];
}

delivered : Delivers wire 1 fragments link.inbox
unfolding accept_report check_status_response decode_reply is_more
delivered = more reply first_part refl refl (last last_message last_part refl refl)

read-Delivers_example :
    ((read wire link (path ∷ [])).0 ≡ ok (value ∷ []))
    × ((read wire link (path ∷ [])).1.sent
        ≡ link.sent
          ++ stamp link.exchange (im_message opcode_read_request (with_revision (1 ∷ 24 ∷ [])) none)
            ∷ []
          ++ replicate 1 (ack_of link (4 ∷ 24 ∷ [])))
read-Delivers_example =
    read-Delivers wire link (path ∷ []) (1 ∷ 24 ∷ []) (4 ∷ 24 ∷ []) refl refl (λ n. refl) delivered
      in_fragments

-- The exchange ends after the first message.
abbrev cut_short : Link
cut_short = record link { inbox = ok reply ∷ err exchange_closed ∷ [] }

abbrev command : CommandPath
command = record { endpoint_id = 0; cluster_id = 60; command_id = 0 }

-- A device that answers a timed request with that status.
abbrev answering : ℕ → Wire
answering code = record wire { get_status = λ _. some (record { status = code }) }

abbrev status_reply : Message
status_reply = record reply {
  protocol = record reply.protocol { protocol_opcode = opcode_status_response };
}

abbrev answered : Link
answered = record link { inbox = ok status_reply ∷ ok last_message ∷ [] }

-- A reply to the timed request that is a report, and no status response, is accepted too: two messages
-- are sent.
accepted_report : length (invoke_internal wire link command [] 100).1.sent ≡ 2
unfolding invoke_internal timed_step send_im_message send_im_message_with_ack transmit receive
    receive_first check_status_response
accepted_report = refl

abbrev ongoing : Ongoing
ongoing = record { link = link; accumulated = []; batches = []; errors = []; running = true }

-- One cycle in two messages, and one in a single message.
abbrev received : List (Result ReceiveError Message)
received = (ok reply ∷ ok last_message ∷ []) ++ ((ok last_message ∷ []) ++ [])

received_ok : Cycles wire (fragments ∷ (report_of (item 3) ∷ []) ∷ []) received
unfolding is_more is_clean with_data
received_ok =
    cycle (partial reply first_part refl refl refl (final last_message last_part refl refl refl))
      (refl, (refl, (refl, tt)))
      (cycle (final last_message last_part refl refl refl) (refl, tt) none_yet)

-- The fragments of the list come as they were sent: a subscription does not merge them.
run_reports-Cycles_example :
    let after = run_reports wire ongoing received in
    (after.batches ≡ [] ++ non_empty (fragments ∷ (report_of (item 3) ∷ []) ∷ []))
    × (after.errors ≡ [])
    × (after.running ≡ true)
run_reports-Cycles_example =
    run_reports-Cycles wire (4 ∷ 24 ∷ []) ongoing refl (λ n. refl) refl refl received_ok
