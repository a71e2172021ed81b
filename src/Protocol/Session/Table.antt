-- ===== src/Protocol/Session/Table.antt =====
-- The session table of internal/protocol/session.go: how `CreateSession` chooses an ID, and ends.
use matter_cli.Prelude.{
  ℕ, zero, suc, ◌+◌, ◌-◌, ◌^◌, ◌≤◌, ◌<◌, ◌≡◌, ◌≢◌, ◌⊎◌, refl, ap, subst, sym, ◌∙◌, if◌then◌else◌,
  ltb, ◌==◌, Option, none, some, Result, ok, err, arith, Bool-cases, Option-cases, ==_iff, inl, inr,
}
use matter_cli.Prelude.Maps.{Map, lookup, insert, lookup-insert, lookup-delete, length-insert_new}
use matter_cli.Protocol.Session.{
  Session, SessionType, unsecured, SessionTable, TableError, session_table_full, new_session,
  advance_id, create_loop, create_session, get_session, remove_session, count, unsecured_session,
}

abbrev pub IsSessionId : ℕ → Type 0
IsSessionId id = (0 < id) × (id < 2 ^ 16)

-- The next ID is one to give, and every session is stored under its own ID.
pub record IsValid (st : SessionTable) : Type 0 where
  pub next : IsSessionId st.next_id
  pub keyed : (id : ℕ) (s : Session) → lookup id st.sessions ≡ some s → s.id ≡ id

-- What a call of `CreateSession` may do to a table with these sessions.
pub data Created (t : SessionType) (random : Option ℕ) (sessions : Map Session)
    : Result TableError Session × SessionTable → Type 0 where
  created :
      (id next : ℕ)
      → IsSessionId id
      → IsSessionId next
      → lookup id sessions ≡ none
      → Created t random sessions (
        ok (new_session id t random),
        record { sessions = insert id (new_session id t random) sessions; next_id = next },
      )
  full :
      (next : ℕ)
      → IsSessionId next
      → ((id : ℕ) → IsSessionId id → lookup id sessions ≢ none)
      → Created t random sessions
          (err session_table_full, record { sessions = sessions; next_id = next })

-- The IDs tried so far: from `start` up to `next`, around the end.
abbrev IsTried : ℕ → ℕ → ℕ → Type 0
IsTried start next id =
    ((start ≤ next) × (start ≤ id) × (id < next)) ⊎ ((next < start) × ((start ≤ id) ⊎ (id < next)))

advance_id-IsSessionId : (id : ℕ) → IsSessionId id → IsSessionId (advance_id id)
unfolding advance_id
advance_id-IsSessionId id h = ground arith

advance-IsTried :
    (start next id : ℕ)
    → IsSessionId start
    → IsSessionId next
    → IsSessionId id
    → advance_id next ≢ start
    → IsTried start (advance_id next) id
    → IsTried start next id ⊎ (id ≡ next)
unfolding advance_id
advance-IsTried start next id hs hn hi ne h = ground arith

advance_around :
    (start next id : ℕ)
    → IsSessionId start
    → IsSessionId next
    → IsSessionId id
    → advance_id next ≡ start
    → IsTried start next id ⊎ (id ≡ next)
unfolding advance_id
advance_around start next id hs hn hi e = ground arith

-- The rounds left before the search is back at `start`.
unfoldable left : ℕ → ℕ → ℕ
left start next = if ltb next start then start - next else start + 65535 - next

left_advance :
    (start next : ℕ)
    → IsSessionId start
    → IsSessionId next
    → advance_id next ≢ start
    → left start (advance_id next) + 1 ≡ left start next
unfolding advance_id left
left_advance start next hs hn ne = ground arith

module _ (t : SessionType) (random : Option ℕ) (sessions : Map Session) (start : ℕ)
    (hs : IsSessionId start) where
  abbrev Returns : Option (Result TableError Session × SessionTable) → Type 0
  Returns o =
      (r : Result TableError Session × SessionTable) × (o ≡ some r) × Created t random sessions r

  abbrev AllTaken : ℕ → Type 0
  AllTaken next = (id : ℕ) → IsSessionId id → IsTried start next id → lookup id sessions ≢ none

  taken_now :
      (next : ℕ) (s : Session)
      → lookup next sessions ≡ some s
      → AllTaken next
      → (id : ℕ) → IsSessionId id
      → (IsTried start next id ⊎ (id ≡ next))
      → lookup id sessions ≢ none
  taken_now next s e taken id hi (inl tried) = taken id hi tried
  taken_now next s e taken id hi (inr same) = λ q. cc

  create_loop-Created :
      (fuel next : ℕ)
      → IsSessionId next
      → left start next ≤ fuel
      → AllTaken next
      → Returns (create_loop fuel start t random (record { sessions = sessions; next_id = next }))
  unfolding create_loop
  create_loop-Created zero next hn h taken = absurd (unfold left in ground arith)
  create_loop-Created (suc fuel) next hn h taken =
      let hn' : IsSessionId (advance_id next) = advance_id-IsSessionId next hn in
      elim (Option-cases (lookup next sessions)) [
        | inl free ↦ (
          (
            ok (new_session next t random),
            record {
              sessions = insert next (new_session next t random) sessions;
              next_id = advance_id next;
            },
          ),
          rw (free, create_loop),
          created next (advance_id next) hn hn' free,
        )
        | inr (s, used) ↦ elim (Bool-cases (advance_id next == start)) [
          | inl around ↦ (
            (err session_table_full, record { sessions = sessions; next_id = advance_id next }),
            rw (used, around, create_loop),
            full (advance_id next) hn' (λ id hi.
                taken_now next s used taken id hi
                  (advance_around start next id hs hn hi ((==_iff _ _).0 around))),
          )
          | inr on ↦
              let ne : advance_id next ≢ start = ground arith in
              rw (used, on, create_loop)
                (create_loop-Created fuel (advance_id next) hn'
                  (omega (arith, left_advance start next hs hn ne))
                  (λ id hi tried.
                    taken_now next s used taken id hi
                      (advance-IsTried start next id hs hn hi ne tried)))
        ]
      ]

-- From a table whose next ID is one to give, `CreateSession` returns within 65535 rounds: with a new
-- session under a free ID other than 0, or with the error where all 65535 IDs are in use.
pub create_session-Created :
    (t : SessionType) (random : Option ℕ) (st : SessionTable)
    → IsSessionId st.next_id
    → (r : Result TableError Session × SessionTable) × (create_session t random st ≡ some r)
      × Created t random st.sessions r
unfolding create_session
create_session-Created t random st h =
    create_loop-Created t random st.sessions st.next_id h 65535 st.next_id h
      (unfold left in ground arith) (λ id hi tried. absurd (omega arith))

-- What a successful `CreateSession` leaves behind.
pub record IsCreated (st st' : SessionTable) (s : Session) : Type 0 where
  pub not_reserved : s.id ≢ 0
  pub was_free : get_session s.id st ≡ none
  pub stored : get_session s.id st' ≡ some s
  pub others : (j : ℕ) → j ≢ s.id → get_session j st' ≡ get_session j st
  pub one_more : count st' ≡ count st + 1

Created-IsCreated :
    (t : SessionType) (random : Option ℕ) (st : SessionTable)
    (r : Result TableError Session × SessionTable)
    → Created t random st.sessions r
    → (s : Session) → r.0 ≡ ok s
    → IsCreated st r.1 s
unfolding new_session get_session count
Created-IsCreated t random st _ (created id next hi hn free) s e =
    let same : new_session id t random ≡ s = cc in
    subst (IsCreated st _) same (record {
      not_reserved = omega arith;
      was_free = free;
      stored = rw lookup-insert (ground arith);
      others = λ j ne. rw lookup-insert (ground arith);
      one_more = length-insert_new id _ st.sessions free;
    })
Created-IsCreated t random st _ (full next hn taken) s e = cc

-- A session that `CreateSession` returns, from a table whose next ID is one to give, is stored under
-- its ID, which is not 0 and was free; no other entry changes, and the table has one session more.
pub create_session_ok :
    (t : SessionType) (random : Option ℕ) (st st' : SessionTable) (s : Session)
    → IsSessionId st.next_id
    → create_session t random st ≡ some (ok s, st')
    → IsCreated st st' s
create_session_ok t random st st' s h e =
    let (r, returned, made) = create_session-Created t random st h in
    let same : r ≡ (ok s, st') = cc in
    let whole : IsCreated st r.1 s = Created-IsCreated t random st r made s (ap (λ q. q.0) same) in
    subst (λ q. IsCreated st q s) (ap (λ q. q.1) same) whole

full_only :
    (t : SessionType) (random : Option ℕ) (st : SessionTable)
    (r : Result TableError Session × SessionTable)
    → Created t random st.sessions r
    → (e : TableError) → r.0 ≡ err e
    → ((id : ℕ) → IsSessionId id → get_session id st ≢ none) × (r.1.sessions ≡ st.sessions)
unfolding get_session
full_only t random st _ (created id next hi hn free) e h = cc
full_only t random st _ (full next hn taken) e h = (taken, refl)

-- A `CreateSession` that fails, from a table whose next ID is one to give, found every ID from 1 to
-- 65535 in use, and it leaves the sessions as they were.
pub create_session_err :
    (t : SessionType) (random : Option ℕ) (st st' : SessionTable) (e : TableError) (id : ℕ)
    → IsSessionId st.next_id
    → create_session t random st ≡ some (err e, st')
    → IsSessionId id
    → (get_session id st ≢ none) × (st'.sessions ≡ st.sessions)
create_session_err t random st st' e id h returned hi =
    let (r, found, made) = create_session-Created t random st h in
    let same : r ≡ (err e, st') = cc in
    let (taken, kept) = full_only t random st r made e (ap (λ q. q.0) same) in
    (taken id hi, sym (ap (λ q. q.1.sessions) same) ∙ kept)

keyed-insert :
    (id : ℕ) (v : Session) (m : Map Session)
    → v.id ≡ id
    → ((j : ℕ) (s : Session) → lookup j m ≡ some s → s.id ≡ j)
    → (j : ℕ) (s : Session) → lookup j (insert id v m) ≡ some s
    → s.id ≡ j
keyed-insert id v m own keyed j s e = elim (Bool-cases (id == j)) [
  | inl same ↦
      let found : v ≡ s = cc (lookup-insert id j v m, same) in
      rw (← found, own) ((==_iff _ _).0 same)
  | inr other ↦ keyed j s (rw (lookup-insert, other) at e)
]

Created-IsValid :
    (t : SessionType) (random : Option ℕ) (st : SessionTable)
    (r : Result TableError Session × SessionTable)
    → Created t random st.sessions r
    → IsValid st
    → IsValid r.1
Created-IsValid t random st _ (created id next hi hn free) v = record {
  next = hn;
  keyed =
      keyed-insert id (new_session id t random) st.sessions (unfold new_session in refl) v.keyed;
}
Created-IsValid t random st _ (full next hn taken) v = record { next = hn; keyed = v.keyed }

-- A valid table stays valid whatever `CreateSession` returns, success or error.
pub create_session-IsValid :
    (t : SessionType) (random : Option ℕ) (st st' : SessionTable) (r : Result TableError Session)
    → IsValid st
    → create_session t random st ≡ some (r, st')
    → IsValid st'
create_session-IsValid t random st st' r v e =
    let (q, found, made) = create_session-Created t random st v.next in
    let same : q ≡ (r, st') = cc in
    subst (λ p. IsValid p.1) same (Created-IsValid t random st q made v)

-- A valid table stays valid when a session is removed, present or not.
pub remove_session-IsValid :
    (id : ℕ) (st : SessionTable) → IsValid st → IsValid (remove_session id st)
unfolding remove_session
remove_session-IsValid id st v = record {
  next = v.next;
  keyed = λ j s e. ground (arith, lookup-delete id j st.sessions, v.keyed j s);
}

-- A valid table stays valid when the unsecured session is looked up or made.
pub unsecured_session-IsValid :
    (random : Option ℕ) (st : SessionTable) → IsValid st → IsValid (unsecured_session random st).1
unfolding unsecured_session
unsecured_session-IsValid random st v = elim (Option-cases (lookup 0 st.sessions)) [
  | inl e ↦
      rw (e, unsecured_session)
        (record {
          next = v.next;
          keyed =
              keyed-insert 0 (new_session 0 unsecured random) st.sessions
                (unfold new_session in refl) v.keyed;
        })
  | inr (s, e) ↦ rw (e, unsecured_session) v
]
