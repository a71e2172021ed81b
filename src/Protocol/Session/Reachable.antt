-- ===== src/Protocol/Session/Reachable.antt =====
-- internal/protocol/session.go: the tables that the calls of the session table can make.
use matter_cli.Prelude.{ℕ, ◌≡◌, Option, some, Result, arith, inl, inr}
use matter_cli.Prelude.Maps.{lookup, insert, insert-entry}
use matter_cli.Protocol.Session.{
  Session, SessionType, SessionTable, TableError, new_session_table, create_session, remove_session,
  unsecured_session,
}
use matter_cli.Protocol.Session.Table.{
  IsValid, create_session-IsValid, remove_session-IsValid, unsecured_session-IsValid,
}

-- A call on the table, or a change by the holder of a pointer to a session, which leaves its ID.
pub data Step : SessionTable → SessionTable → Type 0 where
  created :
      (t : SessionType) (random : Option ℕ) (st after : SessionTable)
      (r : Result TableError Session)
      → create_session t random st ≡ some (r, after)
      → Step st after
  removed : (id : ℕ) (st : SessionTable) → Step st (remove_session id st)
  unsecured_found :
      (random : Option ℕ) (st : SessionTable) → Step st (unsecured_session random st).1
  changed :
      (id : ℕ) (old new : Session) (st : SessionTable)
      → lookup id st.sessions ≡ some old
      → new.id ≡ old.id
      → Step st (record st { sessions = insert id new st.sessions })

pub data Reachable : SessionTable → Type 0 where
  start : Reachable new_session_table
  next : {before after : SessionTable} → Reachable before → Step before after → Reachable after

step-IsValid : {st after : SessionTable} → Step st after → IsValid st → IsValid after
step-IsValid (created t random st after r e) v = create_session-IsValid t random st after r v e
step-IsValid (removed id st) v = remove_session-IsValid id st v
step-IsValid (unsecured_found random st) v = unsecured_session-IsValid random st v
step-IsValid (changed id old new st e same) v = record {
  next = v.next;
  keyed = λ j s f. elim (insert-entry id j new s st.sessions f) [
    | inl (k, w) ↦ rw (← w, ← k, same) (v.keyed id old e)
    | inr (k, g) ↦ v.keyed j s g
  ];
}

-- In every table that the calls and the changes of sessions can make, the next ID is one to give,
-- and every session is stored under its own ID.
pub Reachable-IsValid : (st : SessionTable) → Reachable st → IsValid st
unfolding lookup
Reachable-IsValid st start = record { next = omega arith; keyed = λ id s e. absurd (cc) }
Reachable-IsValid st (next {before} reach step) = step-IsValid step (Reachable-IsValid before reach)
