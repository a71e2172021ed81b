-- ===== src/Protocol/Exchange/Delivery.antt =====
-- internal/protocol/exchange.go: where a message goes, and what closing everything does.
use matter_cli.Prelude.{
  ℕ, ◌<◌, ◌≡◌, ◌≢◌, refl, sym, ap, ◌∙◌, false, ◌==◌, Option, some, [], ◌∷◌, ◌++◌, length,
  Bool-cases, inl, inr, arith, ==_iff, ==_refl, ne→==, lt→ltb,
}
use matter_cli.Prelude.Maps.{Map, lookup, insert, lookup-insert}
use matter_cli.Protocol.Message.{Message}
use matter_cli.Protocol.Exchange.{
  Exchange, ExchangeManager, route_of, offer, delivered, deliver, handle_message, close,
  close_object, close_routes, incoming_capacity,
}
use matter_cli.Protocol.Exchange.Routes.{ExchangeKey, RouteTable, find, same_route}
use matter_cli.Protocol.Exchange.Preserves.{deliver-open, close_object-here, close_object-other}

some_nat : {a b : ℕ} → some a ≡ some b → a ≡ b
some_nat h = cc

offer-room :
    (em : ExchangeManager) (object : ℕ) (e : Exchange) (msg : Message)
    → length e.incoming < incoming_capacity
    → offer em object e msg ≡ (
      delivered,
      record em {
        objects = insert object (record e { incoming = e.incoming ++ msg ∷ [] }) em.objects;
      },
    )
unfolding offer
offer-room em object e msg room = rw (offer, lt→ltb _ _ room) refl

handle_message-deliver :
    (em : ExchangeManager) (msg : Message) (object : ℕ) (e : Exchange)
    → find (route_of msg) em.exchanges ≡ some object
    → lookup object em.objects ≡ some e
    → handle_message em msg ≡ deliver em object e msg
unfolding handle_message
handle_message-deliver em msg object e f g = rw (handle_message, f, g) refl

-- A message with the key of a registered open exchange whose channel has room is put behind what that
-- channel buffers, and no other exchange changes.
pub handle_message-delivers :
    (em : ExchangeManager) (msg : Message) (object other : ℕ) (e : Exchange)
    → e.closed ≡ false
    → find (route_of msg) em.exchanges ≡ some object
    → lookup object em.objects ≡ some e
    → length e.incoming < incoming_capacity
    → other ≢ object
    → let (result, after) = handle_message em msg in
      (result ≡ delivered)
      × (after.exchanges ≡ em.exchanges)
      × (lookup object after.objects ≡ some (record e { incoming = e.incoming ++ msg ∷ [] }))
      × (lookup other after.objects ≡ lookup other em.objects)
handle_message-delivers em msg object other e is_open f g room apart =
    let run =
      handle_message-deliver em msg object e f g
      ∙ deliver-open em object e msg is_open
      ∙ offer-room em object e msg room in
    let new = record e { incoming = e.incoming ++ msg ∷ [] } in
    (
      ap (λ p. p.0) run,
      ap (λ p. p.1.exchanges) run,
      ap (λ p. lookup object p.1.objects) run
          ∙ rw (lookup-insert object object new em.objects, ==_refl object) refl,
      ap (λ p. lookup other p.1.objects) run
          ∙ rw
              (
                lookup-insert object other new em.objects,
                ne→== object other (λ same. apart (sym same)),
              )
              refl,
    )

some_apart : (a b : ℕ) → (a == b) ≡ false → ◌≢◌ {A = Option ℕ} (some a) (some b)
some_apart a b n e = ground (arith, some_nat e)

close_routes-closed :
    (routes : RouteTable) (object : ℕ) (e : Exchange) (objects : Map Exchange)
    → lookup object objects ≡ some (close e)
    → lookup object (close_routes routes objects) ≡ some (close e)
unfolding close_routes close
close_routes-closed [] object e objects f = f
close_routes-closed ((key, at) ∷ routes) object e objects f = elim (Bool-cases (at == object)) [
  | inl y ↦
      close_routes-closed routes object e (close_object at objects)
        (rw ((==_iff at object).0 y) (close_object-here object (close e) objects f))
  | inr n ↦
      close_routes-closed routes object e (close_object at objects)
        (close_object-other object at objects n ∙ f)
]

pub close_routes-close :
    (routes : RouteTable) (key : ExchangeKey) (object : ℕ) (e : Exchange) (objects : Map Exchange)
    → find key routes ≡ some object
    → lookup object objects ≡ some e
    → lookup object (close_routes routes objects) ≡ some (close e)
unfolding close_routes find
close_routes-close [] key object e objects f g = absurd (cc)
close_routes-close ((at_key, at) ∷ routes) key object e objects f g =
    elim (Bool-cases (at == object)) [
      | inl y ↦
          close_routes-closed routes object e (close_object at objects)
            (rw ((==_iff at object).0 y) (close_object-here object e objects g))
      | inr n ↦ elim (Bool-cases (same_route at_key key)) [
        | inl y ↦ absurd (some_apart at object n (rw (find, y) at f))
        | inr m ↦
            close_routes-close routes key object e (close_object at objects) (rw (find, m) at f)
              (close_object-other object at objects n ∙ g)
      ]
    ]
