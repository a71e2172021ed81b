-- ===== src/Tests/Mrp.antt =====
-- internal/transport/mrp.go at concrete inputs.
use matter_cli.Prelude.{ℕ, ◌≤◌, some, false, List, [], ◌∷◌}
use matter_cli.Transport.Mrp.{
  PendingMessage, Mrp, MrpConfig, Event, started, ticked, timed_out, acknowledged,
  default_mrp_config, new_mrp, send_reliable, run, count,
}
use matter_cli.Transport.Mrp.Once.{run-closes_once}

abbrev events : List (Event ℕ)
events =
    started (1 ∷ []) 20 7 3 false ∷ timed_out 7 ∷ acknowledged 7 ∷ timed_out 7 ∷ acknowledged 7 ∷ []

run-closes_once_example : count 0 (run (new_mrp default_mrp_config) events).acks ≤ 1
run-closes_once_example = run-closes_once default_mrp_config events 0

-- One attempt after the first, each with two nanoseconds.
abbrev brief : MrpConfig
brief = record { idle_retransmit_timeout = 2; active_retransmit_timeout = 1; max_retransmits = 1 }

abbrev waiting : Mrp ℕ
waiting = send_reliable (new_mrp brief) (1 ∷ []) 20 7 3 false

abbrev entry : PendingMessage ℕ
entry = record {
  data_ = 1 ∷ [];
  addr = 20;
  retries = 0;
  timeout = 2;
  timer = some 2;
  acked = 0;
  exchange_id = 3;
}

-- Four nanoseconds, and an acknowledgement of another message between them.
abbrev unanswered : List (Event ℕ)
unanswered = ticked 7 ∷ ticked 7 ∷ acknowledged 8 ∷ ticked 7 ∷ ticked 7 ∷ []
