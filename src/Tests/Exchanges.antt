-- ===== src/Tests/Exchanges.antt =====
-- internal/protocol/exchange.go at concrete inputs.
use matter_cli.Prelude.{suc, ◌+◌, ◌≡◌, refl, none, some, true, false, [], ◌∷◌, ◌++◌, err, arith}
use matter_cli.Prelude.Maps.{lookup, insert}
use matter_cli.Protocol.Message.{Message}
use matter_cli.Protocol.Exchange.{
  Exchange, ExchangeManager, exchange_closed, new_exchange_manager, new_exchange, register, key_of,
  route_of, is_initiator_flag, close_exchange, close_all, close_at,
}
use matter_cli.Protocol.Exchange.Routes.{find, put, remove, same_route, same_bool}
use matter_cli.Protocol.Exchange.Valid.{IsValid}
use matter_cli.Protocol.Exchange.Reachable.{created, closes, start, next, Reach-IsValid}
use matter_cli.Protocol.Exchange.Order.{handle_all, receive_each, received, receive_each-handle_all}
use matter_cli.Protocol.Exchange.Order.{close_all-ends}

-- A manager with one exchange of session 5.
abbrev pub one : ExchangeManager
one = (new_exchange new_exchange_manager 5).1

abbrev pub opened : Exchange
opened = record { id = 0; session_id = 5; is_initiator = true; incoming = []; closed = false }

Reach-IsValid_example : IsValid (0 ∷ []) (close_at one 0)
Reach-IsValid_example =
    Reach-IsValid (0 ∷ []) (close_at one 0) (closes 0 (next start (created new_exchange_manager 5)))

abbrev pub reply : Message
reply = record {
  header = record {
    flags = 0;
    session_id = 5;
    security_flags = 0;
    message_counter = 9;
    source_node_id = 0;
    has_source_node_id = false;
    destination_node_id = 0;
    has_destination_node_id = false;
    destination_group_id = 0;
    has_destination_group_id = false;
  };
  protocol = record {
    exchange_flags = 4;
    protocol_opcode = 5;
    exchange_id = 0;
    protocol_id = 1;
    vendor_id = 0;
    has_vendor_id = false;
    ack_message_counter = 0;
    has_ack_counter = false;
  };
  payload = [];
}

reply_route : find (route_of reply) one.exchanges ≡ some 0
unfolding new_exchange register find put same_route same_bool route_of key_of is_initiator_flag
reply_route = refl

stored : lookup 0 one.objects ≡ some opened
unfolding new_exchange register lookup insert
stored = refl

-- The manager with a message that nobody has received.
abbrev buffering : ExchangeManager
buffering = record one { objects = insert 0 (record opened { incoming = reply ∷ [] }) one.objects }

stored_one : lookup 0 buffering.objects ≡ some (record opened { incoming = reply ∷ [] })
unfolding new_exchange register lookup insert
stored_one = refl

close_all-ends_example :
    ((close_all buffering).exchanges ≡ [])
    × ((after : Exchange) × (lookup 0 (close_all buffering).objects ≡ some after)
        × (receive_each (suc 1) after ≡ received (reply ∷ []) ++ some (err exchange_closed) ∷ []))
close_all-ends_example =
    close_all-ends buffering (route_of reply) 0 (record opened { incoming = reply ∷ [] })
      reply_route stored_one

-- The counter of IDs has gone around while exchange 0 was open: the new exchange takes its key.
abbrev around : ExchangeManager
around = (new_exchange (record one { next_id = 0 }) 5).1

shadowed : find (route_of reply) around.exchanges ≡ some 1
unfolding new_exchange register find put same_route same_bool route_of key_of is_initiator_flag
shadowed = refl

-- Closing the old exchange then takes the new one out of the table.
unregistered : find (route_of reply) (close_exchange around 0).exchanges ≡ none
unfolding new_exchange register find put remove same_route same_bool route_of key_of
    is_initiator_flag close_exchange lookup insert
unregistered = refl

abbrev second_reply : Message
second_reply = record reply { payload = 7 ∷ [] }

receive_each-handle_all_example :
    (after : Exchange) × (lookup 0 (handle_all one (reply ∷ second_reply ∷ [])).objects
      ≡ some after)
    × (receive_each (0 + 2) after ≡ received ([] ++ reply ∷ second_reply ∷ []))
unfolding route_of is_initiator_flag
receive_each-handle_all_example =
    receive_each-handle_all one (reply ∷ second_reply ∷ []) 0 opened refl
      (reply_route, (reply_route, tt)) stored (omega arith)
