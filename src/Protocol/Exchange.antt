-- ===== src/Protocol/Exchange.antt =====
-- internal/protocol/exchange.go: exchanges, and the manager that routes messages to them. Exchanges
-- are objects that the manager and their owners share, so they stand in a store.
pub mod Routes
pub mod Valid
pub mod Preserves
pub mod Reachable
pub mod Delivery
pub mod Order
use matter_cli.Prelude.{
  ℕ, ◌+◌, ◌%◌, ◌^◌, Bool, true, false, not, if◌then◌else◌, ltb, ◌==◌, Option, none, some, List, [],
  ◌∷◌, ◌++◌, length, bit_and, bit_or, Result, ok, err,
}
use matter_cli.Prelude.Maps.{Map, lookup, insert}
use matter_cli.Protocol.Message.{Message, MessageHeader, ProtocolHeader, ex_flag_initiator}
use matter_cli.Protocol.Exchange.Routes.{ExchangeKey, RouteTable, find, put, remove}

-- The session is known by its ID. `incoming` holds what the channel buffers.
pub record Exchange : Type 0 where
  pub id : ℕ
  pub session_id : ℕ
  pub is_initiator : Bool
  pub incoming : List Message
  pub closed : Bool

-- Why `Receive` and `HandleMessage` fail, and `NewExchange` with an ended context.
pub data ExchangeError : Type 0 where
  exchange_closed context_ended no_exchange : ExchangeError

-- What comes of a message: `send_waits` with the exchange whose channel is full.
pub data MessageOutcome : Type 0 where
  delivered send_panics : MessageOutcome
  refused : ExchangeError → MessageOutcome
  send_waits : ℕ → MessageOutcome

-- `Send` up to the call of `SendFunc`.
unfoldable pub stamp : Exchange → Message → Message
stamp e msg =
    let flags = msg.protocol.exchange_flags in
    record msg {
      protocol = record msg.protocol {
        exchange_id = e.id;
        exchange_flags = if e.is_initiator then bit_or flags ex_flag_initiator else flags;
      };
      header = record msg.header { session_id = e.session_id };
    }

-- `make(chan *Message, 8)`.
abbrev pub incoming_capacity : ℕ
incoming_capacity = 8

-- `objects` is the store of exchanges, and `next_object` the number of the next one.
pub record ExchangeManager : Type 0 where
  pub exchanges : RouteTable
  pub next_id : ℕ
  pub objects : Map Exchange
  pub next_object : ℕ

abbrev pub new_exchange_manager : ExchangeManager
new_exchange_manager = record { exchanges = []; next_id = 0; objects = []; next_object = 0 }

unfoldable pub key_of : Exchange → ExchangeKey
key_of e = record { session_id = e.session_id; exchange_id = e.id; is_local = e.is_initiator }

-- An exchange is made and registered under its key.
unfoldable pub register : ExchangeManager → Exchange → ExchangeManager
register em e = record em {
  exchanges = put (key_of e) em.next_object em.exchanges;
  objects = insert em.next_object e em.objects;
  next_object = em.next_object + 1;
}

-- `NewExchange` with a context that has not ended, for the session with that ID.
unfoldable pub new_exchange : ExchangeManager → ℕ → ℕ × ExchangeManager
new_exchange em session_id = (
  em.next_object,
  register (record em { next_id = (em.next_id + 1) % 2 ^ 16 })
      (record {
        id = em.next_id;
        session_id = session_id;
        is_initiator = true;
        incoming = [];
        closed = false;
      }),
)

unfoldable pub is_initiator_flag : Message → Bool
is_initiator_flag msg = not (bit_and msg.protocol.exchange_flags ex_flag_initiator == 0)

unfoldable pub route_of : Message → ExchangeKey
route_of msg = record {
  session_id = msg.header.session_id;
  exchange_id = msg.protocol.exchange_id;
  is_local = not (is_initiator_flag msg);
}

-- The send to the channel: a full one is a wait.
unfoldable pub offer : ExchangeManager → ℕ → Exchange → Message → MessageOutcome × ExchangeManager
offer em object e msg =
    if ltb (length e.incoming) incoming_capacity
    then (
      delivered,
      record em {
        objects = insert object (record e { incoming = e.incoming ++ msg ∷ [] }) em.objects;
      },
    )
    else (send_waits object, em)

-- A message for an exchange that is registered, with a context that has not ended.
unfoldable pub deliver : ExchangeManager → ℕ → Exchange → Message → MessageOutcome × ExchangeManager
unfolding offer
deliver em object e msg = if e.closed then (refused exchange_closed, em) else offer em object e msg

-- The `select` that a message waits in, at a later time. `ended` says that its other case runs, the
-- context's. A send to a channel that has been closed meanwhile panics.
unfoldable pub resume_with :
    ExchangeManager → ℕ → Exchange → Message → Bool → MessageOutcome × ExchangeManager
unfolding offer
resume_with em object e msg ended =
    if ended
    then (refused context_ended, em)
    else if e.closed
    then (send_panics, em)
    else offer em object e msg

unfoldable pub resume : ExchangeManager → ℕ → Message → Bool → MessageOutcome × ExchangeManager
resume em object msg ended = elim (lookup object em.objects) [
  | none ↦ (refused no_exchange, em)
  | some e ↦ resume_with em object e msg ended
]

-- `HandleMessage` of a manager without `OnUnhandled`, as the program makes it.
unfoldable pub handle_message : ExchangeManager → Message → MessageOutcome × ExchangeManager
handle_message em msg = elim (find (route_of msg) em.exchanges) [
  | some object ↦ elim (lookup object em.objects) [
    | none ↦ (refused no_exchange, em)
    | some e ↦ deliver em object e msg
  ]
  | none ↦
      if is_initiator_flag msg
      then (
        delivered,
        register em (record {
          id = msg.protocol.exchange_id;
          session_id = msg.header.session_id;
          is_initiator = false;
          incoming = [];
          closed = false;
        }),
      )
      else (refused no_exchange, em)
]

-- `Receive` on an exchange, with what its channel buffers: `none` while it waits.
unfoldable pub receive_from :
    Exchange → List Message → Option (Result ExchangeError Message × Exchange)
receive_from e [] = if e.closed then some (err exchange_closed, e) else none
receive_from e (msg ∷ rest) = some (ok msg, record e { incoming = rest })

unfoldable pub receive : Exchange → Option (Result ExchangeError Message × Exchange)
receive e = receive_from e e.incoming

unfoldable pub put_back :
    ExchangeManager → ℕ → Option (Result ExchangeError Message × Exchange) → ExchangeManager
put_back em object none = em
put_back em object (some (r, e)) = record em { objects = insert object e em.objects }

-- `Receive` by the owner of an object: nothing changes while it waits.
unfoldable pub receive_at : ExchangeManager → ℕ → ExchangeManager
receive_at em object = elim (lookup object em.objects) [
  | none ↦ em
  | some e ↦ put_back em object (receive e)
]

unfoldable pub close : Exchange → Exchange
close e = record e { closed = true }

unfoldable pub close_object : ℕ → Map Exchange → Map Exchange
close_object object objects = elim (lookup object objects) [
  | none ↦ objects
  | some e ↦ insert object (close e) objects
]

-- `Exchange.Close` by the owner: the manager keeps the key.
unfoldable pub close_at : ExchangeManager → ℕ → ExchangeManager
close_at em object = record em { objects = close_object object em.objects }

unfoldable pub close_exchange : ExchangeManager → ℕ → ExchangeManager
close_exchange em object = elim (lookup object em.objects) [
  | none ↦ em
  | some e ↦ record em {
    exchanges = remove (key_of e) em.exchanges;
    objects = insert object (close e) em.objects;
  }
]

unfoldable pub close_routes : RouteTable → Map Exchange → Map Exchange
close_routes [] objects = objects
close_routes ((key, object) ∷ routes) objects = close_routes routes (close_object object objects)

unfoldable pub close_all : ExchangeManager → ExchangeManager
close_all em = record em { exchanges = []; objects = close_routes em.exchanges em.objects }

unfoldable count : ExchangeManager → ℕ
count em = length em.exchanges
