-- ===== src/Protocol/Exchange/Preserves.antt =====
-- internal/protocol/exchange.go: each call keeps what holds of the manager.
use matter_cli.Prelude.{
  ℕ, ◌≤◌, ◌≡◌, refl, sym, ap, subst, if◌then◌else◌, ◌∙◌, Bool, true, false, ltb, ◌==◌, some, List,
  [], ◌∷◌, ◌++◌, length, length-append, Bool-cases, Option-cases, inl, inr, arith, ==_iff, ==_refl,
  ltb→lt,
}
use matter_cli.Prelude.Maps.{Map, lookup, insert, lookup-insert}
use matter_cli.Protocol.Message.{Message}
use matter_cli.Protocol.Exchange.{
  Exchange, send_panics, refused, exchange_closed, ExchangeManager, key_of, route_of,
  is_initiator_flag, offer, deliver, resume_with, resume, close_at, handle_message, receive,
  receive_from, put_back, receive_at, close, close_exchange, close_object, close_routes, close_all,
  incoming_capacity,
}
use matter_cli.Protocol.Exchange.Routes.{RouteTable, find, remove-entry}
use matter_cli.Protocol.Exchange.Valid.{
  AreObjects, AreObjects-insert, IsValid, is_listed, register-IsValid, stored_once, update-IsValid,
}

offer-IsValid :
    (direct : List ℕ) (em : ExchangeManager) (object : ℕ) (e : Exchange) (msg : Message)
    → lookup object em.objects ≡ some e
    → IsValid direct em
    → IsValid direct (offer em object e msg).1
unfolding offer key_of
offer-IsValid direct em object e msg f v =
    elim (Bool-cases (ltb (length e.incoming) incoming_capacity)) [
      | inl y ↦
          rw (offer, y)
            (update-IsValid direct em object e (record e { incoming = e.incoming ++ msg ∷ [] }) f
              refl refl (rw (length-append e.incoming (msg ∷ [])) (omega (arith, ltb→lt _ _ y))) v)
      | inr m ↦ rw (offer, m) v
    ]

pub deliver-open :
    (em : ExchangeManager) (object : ℕ) (e : Exchange) (msg : Message)
    → e.closed ≡ false
    → deliver em object e msg ≡ offer em object e msg
unfolding deliver
deliver-open em object e msg n =
    ap (λ c. if c then (refused exchange_closed, em) else offer em object e msg) n

deliver-IsValid :
    (direct : List ℕ) (em : ExchangeManager) (object : ℕ) (e : Exchange) (msg : Message)
    → lookup object em.objects ≡ some e
    → IsValid direct em
    → IsValid direct (deliver em object e msg).1
unfolding deliver
deliver-IsValid direct em object e msg f v = elim (Bool-cases e.closed) [
  | inl y ↦ rw (deliver, y) v
  | inr n ↦
      subst (λ p. IsValid direct p.1) (sym (deliver-open em object e msg n))
        (offer-IsValid direct em object e msg f v)
]

resume_with-IsValid :
    (direct : List ℕ) (em : ExchangeManager) (object : ℕ) (e : Exchange) (msg : Message)
    (cancelled : Bool)
    → lookup object em.objects ≡ some e
    → IsValid direct em
    → IsValid direct (resume_with em object e msg cancelled).1
unfolding resume_with
resume_with-IsValid direct em object e msg true f v = v
resume_with-IsValid direct em object e msg false f v = elim (Bool-cases e.closed) [
  | inl y ↦ rw (resume_with, y) v
  | inr n ↦
      subst (λ p. IsValid direct p.1)
        (sym (ap (λ c. if c then (send_panics, em) else offer em object e msg) n))
        (offer-IsValid direct em object e msg f v)
]

pub resume-IsValid :
    (direct : List ℕ) (em : ExchangeManager) (object : ℕ) (msg : Message) (cancelled : Bool)
    → IsValid direct em
    → IsValid direct (resume em object msg cancelled).1
unfolding resume
resume-IsValid direct em object msg cancelled v = elim (Option-cases (lookup object em.objects)) [
  | inl f ↦ rw (resume, f) v
  | inr (e, f) ↦ rw (resume, f) (resume_with-IsValid direct em object e msg cancelled f v)
]

pub handle_message-IsValid :
    (direct : List ℕ) (em : ExchangeManager) (msg : Message)
    → IsValid direct em
    → IsValid direct (handle_message em msg).1
unfolding handle_message
handle_message-IsValid direct em msg v = elim (Option-cases (find (route_of msg) em.exchanges)) [
  | inr (object, f) ↦
      let t = v.target (route_of msg) object f in
      rw (handle_message, f, t.stored) (deliver-IsValid direct em object t.exchange msg t.stored v)
  | inl f ↦ elim (Bool-cases (is_initiator_flag msg)) [
    | inl y ↦ rw (handle_message, f, y) (register-IsValid direct em _ refl refl v)
    | inr n ↦ rw (handle_message, f, n) v
  ]
]

receive_from-IsValid :
    (direct : List ℕ) (em : ExchangeManager) (object : ℕ) (e : Exchange) (buffered : List Message)
    → lookup object em.objects ≡ some e
    → length buffered ≤ incoming_capacity
    → IsValid direct em
    → IsValid direct (put_back em object (receive_from e buffered))
unfolding receive_from put_back key_of
receive_from-IsValid direct em object e [] f fits v = elim (Bool-cases e.closed) [
  | inl y ↦
      rw (receive_from, y)
        (update-IsValid direct em object e (record e { closed = true }) f refl (sym y)
          (v.objects.bounded object e f) v)
  | inr n ↦ rw (receive_from, n) v
]
receive_from-IsValid direct em object e (msg ∷ rest) f fits v =
    update-IsValid direct em object e (record e { incoming = rest }) f refl refl (omega arith) v

pub receive_at-IsValid :
    (direct : List ℕ) (em : ExchangeManager) (object : ℕ)
    → IsValid direct em
    → IsValid direct (receive_at em object)
unfolding receive_at receive
receive_at-IsValid direct em object v = elim (Option-cases (lookup object em.objects)) [
  | inl f ↦ rw (receive_at, f) v
  | inr (e, f) ↦
      rw (receive_at, f)
        (receive_from-IsValid direct em object e e.incoming f (v.objects.bounded object e f) v)
]

pub close_exchange-IsValid :
    (direct : List ℕ) (em : ExchangeManager) (object : ℕ)
    → IsValid direct em
    → IsValid direct (close_exchange em object)
unfolding close_exchange close
close_exchange-IsValid direct em object v = elim (Option-cases (lookup object em.objects)) [
  | inl f ↦ rw (close_exchange, f) v
  | inr (e, f) ↦
      rw (close_exchange, f)
        (record {
          target = λ key o g.
              let (apart, h) = remove-entry (key_of e) key o em.exchanges g in
              let t = v.target key o h in
              elim (Bool-cases (object == o)) [
                | inl y ↦ absurd (
                    apart (
                      ap key_of (
                        stored_once em.objects object o e t.exchange ((==_iff object o).0 y) f
                          t.stored)
                      ∙ t.keyed))
                | inr n ↦ record {
                  exchange = t.exchange;
                  stored = rw (lookup-insert object o (close e) em.objects, n) t.stored;
                  keyed = t.keyed;
                  is_open = t.is_open;
                }
              ];
          objects =
              AreObjects-insert em.objects em.next_object object (close e)
                (v.objects.fresh object e f) (v.objects.bounded object e f) v.objects;
        })
]

close_routes-AreObjects :
    (routes : RouteTable) (objects : Map Exchange) (next : ℕ)
    → AreObjects objects next
    → AreObjects (close_routes routes objects) next
unfolding close_routes close_object close
close_routes-AreObjects [] objects next all = all
close_routes-AreObjects ((key, object) ∷ routes) objects next all =
    elim (Option-cases (lookup object objects)) [
      | inl f ↦ rw (close_routes, close_object, f) (close_routes-AreObjects routes objects next all)
      | inr (e, f) ↦
          rw (close_routes, close_object, f)
            (close_routes-AreObjects routes (insert object (close e) objects) next (
              AreObjects-insert objects next object (close e) (all.fresh object e f)
                (all.bounded object e f) all))
    ]

pub close_all-IsValid :
    (direct : List ℕ) (em : ExchangeManager) → IsValid direct em → IsValid direct (close_all em)
unfolding close_all find
close_all-IsValid direct em v = record {
  target = λ key object f. absurd (cc);
  objects = close_routes-AreObjects em.exchanges em.objects em.next_object v.objects;
}

close_object-AreObjects :
    (objects : Map Exchange) (next object : ℕ)
    → AreObjects objects next
    → AreObjects (close_object object objects) next
unfolding close_object close
close_object-AreObjects objects next object all = elim (Option-cases (lookup object objects)) [
  | inl f ↦ rw (close_object, f) all
  | inr (e, f) ↦
      rw (close_object, f)
        (AreObjects-insert objects next object (close e) (all.fresh object e f)
          (all.bounded object e f) all)
]

pub close_object-here :
    (object : ℕ) (e : Exchange) (objects : Map Exchange)
    → lookup object objects ≡ some e
    → lookup object (close_object object objects) ≡ some (close e)
unfolding close_object
close_object-here object e objects f =
    rw (close_object, f, lookup-insert object object (close e) objects, ==_refl object) refl

pub close_object-other :
    (object at : ℕ) (objects : Map Exchange)
    → (at == object) ≡ false
    → lookup object (close_object at objects) ≡ lookup object objects
unfolding close_object
close_object-other object at objects n = elim (Option-cases (lookup at objects)) [
  | inl f ↦ rw (close_object, f) refl
  | inr (e, f) ↦ rw (close_object, f, lookup-insert at object (close e) objects, n) refl
]

pub close_at-IsValid :
    (direct : List ℕ) (em : ExchangeManager) (object : ℕ)
    → IsValid direct em
    → IsValid (object ∷ direct) (close_at em object)
unfolding close_at close is_listed key_of
close_at-IsValid direct em object v = record {
  target = λ key o f.
      let t = v.target key o f in
      elim (Bool-cases (object == o)) [
        | inl y ↦ record {
          exchange = close t.exchange;
          stored = rw ((==_iff object o).0 y) (close_object-here o t.exchange em.objects t.stored);
          keyed = t.keyed;
          is_open = λ listed. ground (arith, y, listed);
        }
        | inr n ↦ record {
          exchange = t.exchange;
          stored = close_object-other o object em.objects n ∙ t.stored;
          keyed = t.keyed;
          is_open = λ listed. t.is_open (rw n at listed);
        }
      ];
  objects = close_object-AreObjects em.objects em.next_object object v.objects;
}
