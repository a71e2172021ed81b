-- ===== src/Protocol/Exchange/Order.antt =====
-- internal/protocol/exchange.go: the order in which an exchange receives its messages.
use matter_cli.Prelude.{
  false, err, ℕ, zero, suc, ◌+◌, ◌≤◌, ◌≡◌, refl, sym, ap, ◌∙◌, Option, none, some, List, [], ◌∷◌,
  ◌++◌, length, length-append, append_assoc, append-nil, All, Result, ok, arith,
}
use matter_cli.Prelude.Maps.{lookup}
use matter_cli.Protocol.Message.{Message}
use matter_cli.Protocol.Exchange.{
  close, close_all, exchange_closed, Exchange, ExchangeManager, ExchangeError, route_of,
  handle_message, receive, receive_from, incoming_capacity,
}
use matter_cli.Protocol.Exchange.Routes.{ExchangeKey, find}
use matter_cli.Protocol.Exchange.Delivery.{handle_message-delivers, close_routes-close}

unfoldable pub handle_all : ExchangeManager → List Message → ExchangeManager
handle_all em [] = em
handle_all em (msg ∷ msgs) = handle_all (handle_message em msg).1 msgs

-- What the owner gets from that many calls of `Receive`; `none` is a wait.
unfoldable pub receive_each : ℕ → Exchange → List (Option (Result ExchangeError Message))
receive_each zero e = []
receive_each (suc n) e = elim (receive e) [
  | none ↦ none ∷ receive_each n e
  | some (r, e') ↦ some r ∷ receive_each n e'
]

-- Those messages, each from a call that does not wait.
abbrev pub received : List Message → List (Option (Result ExchangeError Message))
received [] = []
received (msg ∷ msgs) = some (ok msg) ∷ received msgs

handle_all-buffers :
    (em : ExchangeManager) (msgs : List Message) (object : ℕ) (e : Exchange)
    → e.closed ≡ false
    → All (λ msg. find (route_of msg) em.exchanges ≡ some object) msgs
    → lookup object em.objects ≡ some e
    → length e.incoming + length msgs ≤ incoming_capacity
    → lookup object (handle_all em msgs).objects ≡ some (record e { incoming = e.incoming ++ msgs })
unfolding handle_all
handle_all-buffers em [] object e n routed f room =
    f ∙ ap (λ buffered. some (record e { incoming = buffered })) (sym (append-nil e.incoming))
handle_all-buffers em (msg ∷ msgs) object e n (here, routed) f room =
    let (done, same, stored, others) =
      handle_message-delivers em msg object (object + 1) e n here f (omega arith)
        (λ k. omega arith) in
    handle_all-buffers (handle_message em msg).1 msgs object
      (record e { incoming = e.incoming ++ msg ∷ [] }) n (rw same routed) stored
      (omega (arith, length-append e.incoming (msg ∷ [])))
    ∙ ap (λ buffered. some (record e { incoming = buffered }))
        (append_assoc e.incoming (msg ∷ []) msgs)

receive_each-buffered :
    (e : Exchange) (buffered : List Message)
    → receive_each (length buffered) (record e { incoming = buffered }) ≡ received buffered
unfolding receive_each receive receive_from
receive_each-buffered e [] = refl
receive_each-buffered e (msg ∷ rest) = ap (λ rs. some (ok msg) ∷ rs) (receive_each-buffered e rest)

-- Messages for one open exchange that arrive before their owner looks, as many as the channel has room
-- for, are received in the order of their arrival, behind those that the channel buffered before.
pub receive_each-handle_all :
    (em : ExchangeManager) (msgs : List Message) (object : ℕ) (e : Exchange)
    → e.closed ≡ false
    → All (λ msg. find (route_of msg) em.exchanges ≡ some object) msgs
    → lookup object em.objects ≡ some e
    → length e.incoming + length msgs ≤ incoming_capacity
    → (after : Exchange) × (lookup object (handle_all em msgs).objects ≡ some after)
      × (receive_each (length e.incoming + length msgs) after ≡ received (e.incoming ++ msgs))
receive_each-handle_all em msgs object e n routed f room = (
  record e { incoming = e.incoming ++ msgs },
  handle_all-buffers em msgs object e n routed f room,
  rw (← length-append e.incoming msgs) (receive_each-buffered e (e.incoming ++ msgs)),
)

receive_each-closed :
    (e : Exchange) (buffered : List Message)
    → receive_each (suc (length buffered)) (record (close e) { incoming = buffered })
      ≡ received buffered ++ some (err exchange_closed) ∷ []
unfolding receive_each receive receive_from close
receive_each-closed e [] = refl
receive_each-closed e (msg ∷ rest) = ap (λ rs. some (ok msg) ∷ rs) (receive_each-closed e rest)

-- Closing everything empties the table and closes every exchange that was registered, whatever it
-- buffers: its owner still receives that, in order, and then the error of a closed exchange.
pub close_all-ends :
    (em : ExchangeManager) (key : ExchangeKey) (object : ℕ) (e : Exchange)
    → find key em.exchanges ≡ some object
    → lookup object em.objects ≡ some e
    → ((close_all em).exchanges ≡ [])
      × ((after : Exchange) × (lookup object (close_all em).objects ≡ some after)
          × (receive_each (suc (length e.incoming)) after
              ≡ received e.incoming ++ some (err exchange_closed) ∷ []))
unfolding close_all close
close_all-ends em key object e f g = (
  refl,
  (
    close e,
    close_routes-close em.exchanges key object e em.objects f g,
    receive_each-closed e e.incoming,
  ),
)
