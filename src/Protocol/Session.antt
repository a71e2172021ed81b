-- ===== src/Protocol/Session.antt =====
-- internal/protocol/session.go: sessions, the replay window of the peer's counters, and the table.
pub mod Window
pub mod Replay
pub mod Table
pub mod Reachable
use matter_cli.Prelude.{
  ℕ, zero, suc, ◌+◌, ◌-◌, ◌*◌, ◌%◌, ◌^◌, ◌≤◌, Bool, true, false, not, if◌then◌else◌, ltb, leb, ◌==◌,
  Option, none, some, List, [], length, bit_and, bit_or, Result, ok, err,
}
use matter_cli.Prelude.Maps.{Map, lookup, insert, delete}

pub data SessionType : Type 0 where
  unsecured pase case : SessionType

-- The high-water mark of the peer's counters, and the bitmap of [max_seen - 31, max_seen].
pub record PeerMessageCounter : Type 0 where
  pub max_seen : ℕ
  pub initiated : Bool
  pub bitmap : ℕ

-- A nil key is `none`.
pub record Session : Type 0 where
  pub id : ℕ
  pub peer_session_id : ℕ
  pub type_ : SessionType
  pub local_node_id : ℕ
  pub peer_node_id : ℕ
  pub encrypt_key : Option (List ℕ)
  pub decrypt_key : Option (List ℕ)
  pub attestation_challenge : List ℕ
  pub local_counter : ℕ
  pub peer_counter : PeerMessageCounter

pub data CounterError : Type 0 where
  too_old : ℕ → ℕ → CounterError
  duplicate : ℕ → CounterError

pub data TableError : Type 0 where
  session_table_full : TableError

abbrev pub window_size : ℕ
window_size = 32

-- `localCounter.Add(1) - 1` on a uint32.
unfoldable pub next_message_counter : Session → ℕ × Session
next_message_counter s =
    (s.local_counter, record s { local_counter = (s.local_counter + 1) % 2 ^ 32 })

unfoldable pub validate :
    PeerMessageCounter → ℕ → Result CounterError (Unit {0}) × PeerMessageCounter
validate pc counter =
    if not pc.initiated
    then (ok tt, record pc { max_seen = counter; initiated = true; bitmap = 1 })
    else if ltb pc.max_seen counter
    then (let diff = counter - pc.max_seen in
        let shifted = if leb window_size diff then 0 else pc.bitmap * 2 ^ diff % 2 ^ 32 in
        (ok tt, record pc { bitmap = bit_or shifted 1; max_seen = counter }))
    else (let diff = pc.max_seen - counter in
        if leb window_size diff
        then (err (too_old counter pc.max_seen), pc)
        else (let bit = 2 ^ diff in
            if not (bit_and pc.bitmap bit == 0)
            then (err (duplicate counter), pc)
            else (ok tt, record pc { bitmap = bit_or pc.bitmap bit })))

unfoldable pub validate_peer_counter : Session → ℕ → Result CounterError (Unit {0}) × Session
validate_peer_counter s counter =
    let (r, pc) = validate s.peer_counter counter in (r, record s { peer_counter = pc })

abbrev pub fresh_counter : PeerMessageCounter
fresh_counter = record { max_seen = 0; initiated = false; bitmap = 0 }

-- A session as the table makes it. `random` is what crypto/rand gave for the counter: `none`
-- where the read failed, and the counter then stays 0.
unfoldable pub new_session : ℕ → SessionType → Option ℕ → Session
new_session id t random = record {
  id = id;
  peer_session_id = 0;
  type_ = t;
  local_node_id = 0;
  peer_node_id = 0;
  encrypt_key = none;
  decrypt_key = none;
  attestation_challenge = [];
  local_counter = elim random [ none ↦ 0 | some c ↦ c ];
  peer_counter = fresh_counter;
}

pub record SessionTable : Type 0 where
  pub sessions : Map Session
  pub next_id : ℕ

abbrev pub new_session_table : SessionTable
new_session_table = record { sessions = []; next_id = 1 }

unfoldable pub unsecured_session : Option ℕ → SessionTable → Session × SessionTable
unsecured_session random st = elim (lookup 0 st.sessions) [
  | some s ↦ (s, st)
  | none ↦
      (let s = new_session 0 unsecured random in
        (s, record st { sessions = insert 0 s st.sessions }))
]

-- `st.nextID++`, and 1 in place of 0.
unfoldable pub advance_id : ℕ → ℕ
advance_id id = let next = (id + 1) % 2 ^ 16 in if next == 0 then 1 else next

-- The loop of `CreateSession`; `none` means that the fuel ran out.
unfoldable pub create_loop :
    ℕ
    → ℕ
    → SessionType
    → Option ℕ
    → SessionTable
    → Option (Result TableError Session × SessionTable)
create_loop zero start t random st = none
create_loop (suc fuel) start t random st =
    let id = st.next_id in
    let st' : SessionTable = record st { next_id = advance_id id } in
    let rest = create_loop fuel start t random st' in
    elim (lookup id st.sessions) [
      | none ↦
          (let s = new_session id t random in
            some (ok s, record st' { sessions = insert id s st.sessions }))
      | some _ ↦ (if st'.next_id == start then some (err session_table_full, st') else rest)
    ]

unfoldable pub create_session :
    SessionType → Option ℕ → SessionTable → Option (Result TableError Session × SessionTable)
create_session t random st = create_loop 65535 st.next_id t random st

unfoldable pub get_session : ℕ → SessionTable → Option Session
get_session id st = lookup id st.sessions

unfoldable pub remove_session : ℕ → SessionTable → SessionTable
remove_session id st = record st { sessions = delete id st.sessions }

unfoldable pub count : SessionTable → ℕ
count st = length st.sessions
