-- ===== src/Transport/Mrp.antt =====
-- internal/transport/mrp.go: messages sent until they are acknowledged. The calls of one layer run
-- at the same time, under its lock: an event is what one of them does while it has the lock.
pub mod Kept
pub mod Release
pub mod Once
use matter_cli.Prelude.{
  ℕ, ◌+◌, ◌-◌, ◌*◌, Bool, true, false, if◌then◌else◌, ltb, ◌==◌, Option, none, some, List, [], ◌∷◌,
  ◌++◌, length, ◌≡◌, refl, arith,
}
use matter_cli.Prelude.Maps.{Map, lookup, insert, delete}

-- Durations in nanoseconds.
abbrev pub millisecond : ℕ
millisecond = 1000000

abbrev pub default_idle_retransmit_timeout : ℕ
default_idle_retransmit_timeout = 500 * millisecond

abbrev pub default_active_retransmit_timeout : ℕ
default_active_retransmit_timeout = 300 * millisecond

abbrev pub default_max_retransmits : ℕ
default_max_retransmits = 4

pub record MrpConfig : Type 0 where
  pub idle_retransmit_timeout : ℕ
  pub active_retransmit_timeout : ℕ
  pub max_retransmits : ℕ

abbrev pub default_mrp_config : MrpConfig
default_mrp_config = record {
  idle_retransmit_timeout = default_idle_retransmit_timeout;
  active_retransmit_timeout = default_active_retransmit_timeout;
  max_retransmits = default_max_retransmits;
}

-- `acked` is the number of the channel that the waiting call reads. `timeout` is the interval that the
-- callback of the timer is made with, and `timer` is the time that the timer has left: `none` once it
-- has fired, until it is reset.
pub record PendingMessage (Addr : Type 0) : Type 0 where
  pub data_ : List ℕ
  pub addr : Addr
  pub retries : ℕ
  pub timeout : ℕ
  pub timer : Option ℕ
  pub acked : ℕ
  pub exchange_id : ℕ

-- `next_channel` numbers the channels that `make` gives, `acks` lists the calls of `close` on them,
-- and `sent` lists what the connection was given.
pub record Mrp (Addr : Type 0) : Type 0 where
  pub config : MrpConfig
  pub pending : Map (PendingMessage Addr)
  pub closed : Bool
  pub next_channel : ℕ
  pub acks : List ℕ
  pub sent : List (List ℕ × Addr)

module _ {Addr : Type 0} where
  unfoldable pub new_mrp : MrpConfig → Mrp Addr
  new_mrp config = record {
    config = config;
    pending = [];
    closed = false;
    next_channel = 0;
    acks = [];
    sent = [];
  }

  -- `SendReliable` after the first send, which has not failed, and up to the wait.
  unfoldable pub send_reliable : Mrp Addr → List ℕ → Addr → ℕ → ℕ → Bool → Mrp Addr
  send_reliable m msg addr counter exchange_id exchange_active =
      let timeout =
        if exchange_active
        then m.config.active_retransmit_timeout
        else m.config.idle_retransmit_timeout in
      let entry : PendingMessage Addr = record {
        data_ = msg;
        addr = addr;
        retries = 0;
        timeout = timeout;
        timer = some timeout;
        acked = m.next_channel;
        exchange_id = exchange_id;
      } in
      record m {
        pending = insert counter entry m.pending;
        next_channel = m.next_channel + 1;
        sent = m.sent ++ (msg, addr) ∷ [];
      }

  -- `close(pm.acked)` after the entry of that counter is deleted.
  unfoldable pub release : Mrp Addr → ℕ → PendingMessage Addr → Mrp Addr
  release m counter pm = record m {
    pending = delete counter m.pending;
    acks = m.acks ++ pm.acked ∷ [];
  }

  -- The last send of `retransmit` is made after the lock is given back.
  unfoldable pub retransmit : Mrp Addr → ℕ → Mrp Addr
  retransmit m counter = elim (lookup counter m.pending) [
    | none ↦ m
    | some pm ↦
        if ltb m.config.max_retransmits (pm.retries + 1) then release m counter pm else record m {
          pending =
              insert counter (record pm { retries = pm.retries + 1; timer = some pm.timeout })
                m.pending;
          sent = m.sent ++ (pm.data_, pm.addr) ∷ [];
        }
  ]

  -- The timer of an entry runs for a nanosecond. One that ends fires once, and then stands still until
  -- `retransmit` resets it.
  unfoldable pub tick_entry : Mrp Addr → ℕ → PendingMessage Addr → Option ℕ → Mrp Addr
  tick_entry m counter pm none = m
  tick_entry m counter pm (some left) =
      if ltb 1 left
      then record m { pending = insert counter (record pm { timer = some (left - 1) }) m.pending }
      else retransmit (record m { pending = insert counter (record pm { timer = none }) m.pending })
          counter

  unfoldable pub tick : Mrp Addr → ℕ → Mrp Addr
  tick m counter = elim (lookup counter m.pending) [
    | none ↦ m
    | some pm ↦ tick_entry m counter pm pm.timer
  ]

  unfoldable pub handle_ack : Mrp Addr → ℕ → Bool × Mrp Addr
  handle_ack m counter = elim (lookup counter m.pending) [
    | none ↦ (false, m)
    | some pm ↦ (true, release m counter pm)
  ]

  unfoldable pub remove_pending : Mrp Addr → ℕ → Mrp Addr
  remove_pending m counter = record m { pending = delete counter m.pending }

  unfoldable pending_count : Mrp Addr → ℕ
  pending_count m = length m.pending

  -- `Close`; a second call changes nothing.
  unfoldable pub close : Mrp Addr → Mrp Addr
  close m = if m.closed then m else record m { closed = true; pending = [] }

-- What one of the calls does under the lock. `ticked` is a nanosecond of a timer, with the callback
-- where it ends; `timed_out` is a callback that comes late, behind other calls. `cancelled` is a waiting call whose context has ended,
-- or that has seen the layer closed.
pub data Event (Addr : Type 0) : Type 0 where
  started : List ℕ → Addr → ℕ → ℕ → Bool → Event Addr
  ticked : ℕ → Event Addr
  timed_out : ℕ → Event Addr
  acknowledged : ℕ → Event Addr
  cancelled : ℕ → Event Addr
  shut : Event Addr

module _ {Addr : Type 0} where
  unfoldable pub apply : Mrp Addr → Event Addr → Mrp Addr
  apply m (started msg addr counter exchange_id active) =
      send_reliable m msg addr counter exchange_id active
  apply m (ticked counter) = tick m counter
  apply m (timed_out counter) = retransmit m counter
  apply m (acknowledged counter) = (handle_ack m counter).1
  apply m (cancelled counter) = remove_pending m counter
  apply m shut = close m

  unfoldable pub run : Mrp Addr → List (Event Addr) → Mrp Addr
  run m [] = m
  run m (e ∷ es) = run (apply m e) es

-- How often a channel was closed: a second time panics, and a call that waits for it returns after
-- the first.
unfoldable pub count : ℕ → List ℕ → ℕ
count channel [] = 0
count channel (x ∷ xs) = let rest = count channel xs in if x == channel then rest + 1 else rest

pub count-append :
    (channel a : ℕ) (xs : List ℕ)
    → count channel (xs ++ a ∷ [])
      ≡ (if a == channel then count channel xs + 1 else count channel xs)
unfolding count
count-append channel a [] = refl
count-append channel a (x ∷ xs) = ground (arith, count-append channel a xs)
