-- ===== src/Protocol/Exchange/Valid.antt =====
-- internal/protocol/exchange.go: what holds of a manager: where its keys lead, and what its channels hold.
use matter_cli.Prelude.{
  ℕ, ◌+◌, ◌≤◌, ◌<◌, ◌≡◌, ◌≢◌, refl, ap, ◌∙◌, Bool, ◌||◌, false, ◌==◌, some, List, [], ◌∷◌, length,
  Bool-cases, inl, inr, arith, ==_iff, ==_refl, ne→==,
}
use matter_cli.Prelude.Maps.{Map, lookup, insert, insert-entry, lookup-insert}
use matter_cli.Protocol.Exchange.{Exchange, ExchangeManager, key_of, register, incoming_capacity}
use matter_cli.Protocol.Exchange.Routes.{ExchangeKey, find, put-entry}

-- The store numbers its objects, and no channel buffers more than its capacity.
pub record AreObjects (objects : Map Exchange) (next : ℕ) : Type 0 where
  pub fresh : (object : ℕ) (e : Exchange) → lookup object objects ≡ some e → object < next
  pub bounded :
      (object : ℕ) (e : Exchange)
      → lookup object objects ≡ some e
      → length e.incoming ≤ incoming_capacity

unfoldable pub is_listed : ℕ → List ℕ → Bool
is_listed object [] = false
is_listed object (other ∷ direct) = other == object || is_listed object direct

-- Where a key leads: to an exchange with that key, open unless it is one of those that their owners
-- have closed without the manager.
pub record Target (direct : List ℕ) (objects : Map Exchange) (key : ExchangeKey) (object : ℕ)
    : Type 0 where
  pub exchange : Exchange
  pub stored : lookup object objects ≡ some exchange
  pub keyed : key_of exchange ≡ key
  pub is_open : is_listed object direct ≡ false → exchange.closed ≡ false

pub record IsValid (direct : List ℕ) (em : ExchangeManager) : Type 0 where
  pub target :
      (key : ExchangeKey) (object : ℕ)
      → find key em.exchanges ≡ some object
      → Target direct em.objects key object
  pub objects : AreObjects em.objects em.next_object

pub AreObjects-insert :
    (objects : Map Exchange) (next object : ℕ) (e : Exchange)
    → object < next
    → length e.incoming ≤ incoming_capacity
    → AreObjects objects next
    → AreObjects (insert object e objects) next
AreObjects-insert objects next object e below fits all = record {
  fresh = λ o x f. elim (insert-entry object o e x objects f) [
    | inl (k, v) ↦ rw (← k) below
    | inr (k, g) ↦ all.fresh o x g
  ];
  bounded = λ o x f. elim (insert-entry object o e x objects f) [
    | inl (k, v) ↦ rw (← v) fits
    | inr (k, g) ↦ all.bounded o x g
  ];
}

AreObjects-more :
    (objects : Map Exchange) (next : ℕ) → AreObjects objects next → AreObjects objects (next + 1)
AreObjects-more objects next all = record {
  fresh = λ o x f. omega (arith, all.fresh o x f);
  bounded = all.bounded;
}

pub register-IsValid :
    (direct : List ℕ) (em : ExchangeManager) (e : Exchange)
    → e.incoming ≡ []
    → e.closed ≡ false
    → IsValid direct em
    → IsValid direct (register em e)
unfolding register
register-IsValid direct em e empty open_ v = record {
  target = λ key object f. elim (put-entry (key_of e) key em.next_object object em.exchanges f) [
    | inl (k, o) ↦ record {
      exchange = e;
      stored =
          rw (lookup-insert em.next_object object e em.objects, ← o, ==_refl em.next_object) refl;
      keyed = k;
      is_open = λ listed. open_;
    }
    | inr g ↦
        let t = v.target key object g in
        let other : em.next_object ≢ object =
          λ same. omega (arith, v.objects.fresh object t.exchange t.stored) in
        record {
          exchange = t.exchange;
          stored =
              rw
                (
                  lookup-insert em.next_object object e em.objects,
                  ne→== em.next_object object other,
                )
                t.stored;
          keyed = t.keyed;
          is_open = t.is_open;
        }
  ];
  objects =
      AreObjects-insert em.objects (em.next_object + 1) em.next_object e (omega arith)
        (rw empty (omega arith)) (AreObjects-more em.objects em.next_object v.objects);
}

pub stored_once :
    (objects : Map Exchange) (o object : ℕ) (e other : Exchange)
    → o ≡ object
    → lookup o objects ≡ some e
    → lookup object objects ≡ some other
    → e ≡ other
stored_once objects o object e other k f g = cc

-- A change of what a channel buffers.
pub update-IsValid :
    (direct : List ℕ) (em : ExchangeManager) (object : ℕ) (e new : Exchange)
    → lookup object em.objects ≡ some e
    → key_of new ≡ key_of e
    → new.closed ≡ e.closed
    → length new.incoming ≤ incoming_capacity
    → IsValid direct em
    → IsValid direct (record em { objects = insert object new em.objects })
update-IsValid direct em object e new f k c fits v = record {
  target = λ key o g.
      let t = v.target key o g in
      elim (Bool-cases (object == o)) [
        | inl y ↦
            let same =
              stored_once em.objects object o e t.exchange ((==_iff object o).0 y) f t.stored in
            record {
              exchange = new;
              stored = rw (lookup-insert object o new em.objects, y) refl;
              keyed = k ∙ ap key_of same ∙ t.keyed;
              is_open = λ listed. c ∙ ap (λ x. x.closed) same ∙ t.is_open listed;
            }
        | inr n ↦ record {
          exchange = t.exchange;
          stored = rw (lookup-insert object o new em.objects, n) t.stored;
          keyed = t.keyed;
          is_open = t.is_open;
        }
      ];
  objects =
      AreObjects-insert em.objects em.next_object object new (v.objects.fresh object e f) fits
        v.objects;
}
