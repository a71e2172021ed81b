-- ===== src/Tests/Sessions.antt =====
-- internal/protocol/session.go at concrete inputs.
use matter_cli.Prelude.{ℕ, ◌-◌, ◌^◌, ◌≡◌, refl, none, some, List, [], ◌∷◌, Result, ok, arith}
use matter_cli.Prelude.Maps.{lookup, insert}
use matter_cli.Protocol.Session.{
  Session, case, SessionTable, TableError, new_session, new_session_table, validate_peer_counter,
  create_loop, advance_id, create_session, remove_session, unsecured_session, fresh_counter,
  validate, next_message_counter,
}
use matter_cli.Protocol.Session.Window.{fresh, Agrees, validate-Agrees}
use matter_cli.Protocol.Session.Reachable.{
  created, removed, unsecured_found, start, next, Reachable-IsValid,
}
use matter_cli.Protocol.Session.Replay.{
  accepted, acceptable_all, IsDistinct, accepted-acceptable_all, accepted-IsDistinct,
}
use matter_cli.Protocol.Session.Table.{
  IsValid, Created, IsCreated, create_session-Created, create_session_ok,
}

abbrev session : Session
session = record {
  id = 7;
  peer_session_id = 9;
  type_ = case;
  local_node_id = 1;
  peer_node_id = 2;
  encrypt_key = none;
  decrypt_key = none;
  attestation_challenge = [];
  local_counter = 2 ^ 32 - 1;
  peer_counter = fresh_counter;
}

-- Out of order, a duplicate, a jump past the window, and one that is too old.
abbrev counters : List ℕ
counters = 5 ∷ 7 ∷ 6 ∷ 7 ∷ 100 ∷ 68 ∷ 69 ∷ []

counters_run : accepted session [] counters ≡ 69 ∷ 100 ∷ 6 ∷ 7 ∷ 5 ∷ []
unfolding accepted validate_peer_counter validate
counters_run = refl

accepted-IsDistinct_example : IsDistinct (accepted session [] counters)
accepted-IsDistinct_example = accepted-IsDistinct session counters refl

accepted-acceptable_all_example : accepted session [] counters ≡ acceptable_all [] counters
accepted-acceptable_all_example = accepted-acceptable_all session [] counters (fresh refl)

validate-Agrees_example : Agrees fresh_counter [] 41
validate-Agrees_example = validate-Agrees fresh_counter [] 41 (fresh refl)

counter_wraps : next_message_counter session ≡ (2 ^ 32 - 1, record session { local_counter = 0 })
unfolding next_message_counter
counter_wraps = refl

-- The last ID is in use, and the search goes around to 1.
abbrev nearly_around : SessionTable
nearly_around = record { sessions = (65535, record session { id = 65535 }) ∷ []; next_id = 65535 }

abbrev made : Session
made = new_session 1 case (some 77)

abbrev around : SessionTable
around = record { sessions = (65535, record session { id = 65535 }) ∷ (1, made) ∷ []; next_id = 2 }

create_session-Created_example :
    (r : Result TableError Session × SessionTable) × (create_session case (some 77) nearly_around
      ≡ some r)
    × Created case (some 77) nearly_around.sessions r
create_session-Created_example = create_session-Created case (some 77) nearly_around (omega arith)

wrapped_creation : create_session case (some 77) nearly_around ≡ some (ok made, around)
unfolding create_session create_loop lookup insert advance_id
wrapped_creation = refl

create_session_ok_example : IsCreated nearly_around around made
create_session_ok_example =
    create_session_ok case (some 77) nearly_around around made (omega arith) wrapped_creation

-- A session is made, the unsecured one is looked up, and the first is removed.
abbrev one_table : SessionTable
one_table = record { sessions = (1, made) ∷ []; next_id = 2 }

first_creation : create_session case (some 77) new_session_table ≡ some (ok made, one_table)
unfolding create_session create_loop lookup insert advance_id
first_creation = refl

Reachable-IsValid_example : IsValid (remove_session 1 (unsecured_session none one_table).1)
Reachable-IsValid_example =
    Reachable-IsValid (remove_session 1 (unsecured_session none one_table).1) (
      next
        (next
          (next start (created case (some 77) new_session_table one_table (ok made) first_creation))
          (unsecured_found none one_table))
        (removed 1 (unsecured_session none one_table).1))
