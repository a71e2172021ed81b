-- ===== src/Transport/Mrp/Once.antt =====
-- internal/transport/mrp.go: the calls of `close` on the channels of waiting calls.
use matter_cli.Prelude.{
  ℕ, ◌+◌, ◌-◌, Option, none, ◌≤◌, ◌<◌, ◌≡◌, ◌≢◌, refl, sym, ap, subst, ◌∙◌, ltb, ◌==◌, some, List,
  [], ◌∷◌, ◌++◌, Bool-cases, Option-cases, inl, inr, arith, ==_iff, ne→==,
}
use matter_cli.Prelude.Maps.{Map, lookup, insert, delete, insert-entry, delete-entry}
use matter_cli.Transport.Mrp.{
  PendingMessage, Mrp, MrpConfig, new_mrp, Event, started, ticked, timed_out, acknowledged,
  cancelled, shut, send_reliable, release, retransmit, tick_entry, tick, handle_ack, remove_pending,
  close, apply, run, count, count-append,
}

module _ {Addr : Type 0} where
  -- Every pending message has a channel of its own, which nobody has closed yet; no channel is
  -- closed twice, and none before it is made.
  pub record IsSettled (pending : Map (PendingMessage Addr)) (next : ℕ) (acks : List ℕ)
      : Type 0 where
    pub below : (c : ℕ) (p : PendingMessage Addr) → lookup c pending ≡ some p → p.acked < next
    pub waits :
        (c : ℕ) (p : PendingMessage Addr) → lookup c pending ≡ some p → count p.acked acks ≡ 0
    pub apart :
        (c d : ℕ) (p q : PendingMessage Addr)
        → lookup c pending ≡ some p
        → lookup d pending ≡ some q
        → p.acked ≡ q.acked
        → c ≡ d
    pub once : (channel : ℕ) → count channel acks ≤ 1
    pub unmade : (channel : ℕ) → next ≤ channel → count channel acks ≡ 0

  -- A table all of whose entries were there before, up to what does not matter here.
  IsSettled-fewer :
      (new old : Map (PendingMessage Addr)) (next : ℕ) (acks : List ℕ)
      → ((c : ℕ) (p : PendingMessage Addr)
          → lookup c new ≡ some p
          → (q : PendingMessage Addr) × (lookup c old ≡ some q) × (q.acked ≡ p.acked))
      → IsSettled old next acks
      → IsSettled new next acks
  IsSettled-fewer new old next acks from s = record {
    below = λ c p e. let (q, f, a) = from c p e in subst (λ x. x < next) a (s.below c q f);
    waits = λ c p e. let (q, f, a) = from c p e in subst (λ x. count x acks ≡ 0) a (s.waits c q f);
    apart = λ c d p r e k same.
        let (q, f, a) = from c p e in
        let (t, g, b) = from d r k in s.apart c d q t f g (a ∙ same ∙ sym b);
    once = s.once;
    unmade = s.unmade;
  }

  -- A message that is tried again keeps its channel.
  again :
      (c : ℕ) (p new : PendingMessage Addr) (old : Map (PendingMessage Addr))
      → lookup c old ≡ some p
      → p.acked ≡ new.acked
      → (d : ℕ) (q : PendingMessage Addr) → lookup d (insert c new old) ≡ some q
      → (r : PendingMessage Addr) × (lookup d old ≡ some r) × (r.acked ≡ q.acked)
  again c p new old e same d q f = elim (insert-entry c d new q old f) [
    | inl (k, v) ↦ (p, rw (← k) e, same ∙ ap (λ x. x.acked) v)
    | inr (k, g) ↦ (q, g, refl)
  ]

  IsSettled-released :
      (c : ℕ) (p : PendingMessage Addr) (old : Map (PendingMessage Addr)) (next : ℕ) (acks : List ℕ)
      → lookup c old ≡ some p
      → IsSettled old next acks
      → IsSettled (delete c old) next (acks ++ p.acked ∷ [])
  unfolding count
  IsSettled-released c p old next acks e s = record {
    below = λ d q f. s.below d q (delete-entry c d q old f).1;
    waits = λ d q f.
        let (k, g) = delete-entry c d q old f in
        rw
          (
            count-append q.acked p.acked acks,
            ne→== p.acked q.acked (λ same. k (s.apart c d p q e g same)),
          )
          (s.waits d q g);
    apart =
        λ d g q r f h. s.apart d g q r (delete-entry c d q old f).1 (delete-entry c g r old h).1;
    once = λ channel. elim (Bool-cases (p.acked == channel)) [
      | inl y ↦
          let none_yet =
            subst (λ x. count x acks ≡ 0) ((==_iff p.acked channel).0 y) (s.waits c p e) in
          rw (count-append channel p.acked acks, y) (omega arith)
      | inr n ↦ rw (count-append channel p.acked acks, n) (s.once channel)
    ];
    unmade = λ channel h.
        rw
          (
            count-append channel p.acked acks,
            ne→== p.acked channel (λ same. omega (arith, s.below c p e)),
          )
          (s.unmade channel h);
  }

  -- The channel that `make` has just given is that of no pending message.
  channel_new :
      (p q : PendingMessage Addr) (d : ℕ) (old : Map (PendingMessage Addr)) (next : ℕ)
      (acks : List ℕ)
      → p.acked ≡ next
      → IsSettled old next acks
      → lookup d old ≡ some q
      → p.acked ≢ q.acked
  channel_new p q d old next acks a s e same = omega (arith, s.below d q e)

  IsSettled-started :
      (c : ℕ) (p : PendingMessage Addr) (old : Map (PendingMessage Addr)) (next : ℕ) (acks : List ℕ)
      → p.acked ≡ next
      → IsSettled old next acks
      → IsSettled (insert c p old) (next + 1) acks
  IsSettled-started c p old next acks a s = record {
    below = λ d q f. elim (insert-entry c d p q old f) [
      | inl (k, v) ↦ subst (λ x. x < next + 1) (sym a ∙ ap (λ x. x.acked) v) (omega arith)
      | inr (k, g) ↦ omega (arith, s.below d q g)
    ];
    waits = λ d q f. elim (insert-entry c d p q old f) [
      | inl (k, v) ↦
          subst (λ x. count x acks ≡ 0) (sym a ∙ ap (λ x. x.acked) v) (s.unmade next (omega arith))
      | inr (k, g) ↦ s.waits d q g
    ];
    apart = λ d g q r f h same. elim (insert-entry c d p q old f) [
      | inl (k, v) ↦ elim (insert-entry c g p r old h) [
        | inl (l, w) ↦ sym k ∙ l
        | inr (l, w) ↦ absurd (channel_new p r g old next acks a s w (ap (λ x. x.acked) v ∙ same))
      ]
      | inr (k, v) ↦ elim (insert-entry c g p r old h) [
        | inl (l, w) ↦
            absurd (channel_new p q d old next acks a s v (ap (λ x. x.acked) w ∙ sym same))
        | inr (l, w) ↦ s.apart d g q r v w same
      ]
    ];
    once = s.once;
    unmade = λ channel h. s.unmade channel (omega arith);
  }

  abbrev pub IsValid : Mrp Addr → Type 0
  IsValid m = IsSettled m.pending m.next_channel m.acks

  remove_pending-IsValid : (m : Mrp Addr) (c : ℕ) → IsValid m → IsValid (remove_pending m c)
  unfolding remove_pending
  remove_pending-IsValid m c =
      IsSettled-fewer (delete c m.pending) m.pending m.next_channel m.acks
        (λ d q e. (q, (delete-entry c d q m.pending e).1, refl))

  IsSettled-again :
      (m : Mrp Addr) (c : ℕ) (p new : PendingMessage Addr)
      → lookup c m.pending ≡ some p
      → p.acked ≡ new.acked
      → IsValid m
      → IsSettled (insert c new m.pending) m.next_channel m.acks
  IsSettled-again m c p new e same =
      IsSettled-fewer (insert c new m.pending) m.pending m.next_channel m.acks
        (again c p new m.pending e same)

  retransmit-IsValid : (m : Mrp Addr) (c : ℕ) → IsValid m → IsValid (retransmit m c)
  unfolding retransmit release
  retransmit-IsValid m c s = elim (Option-cases (lookup c m.pending)) [
    | inl e ↦ rw (retransmit, e) s
    | inr (p, e) ↦ elim (Bool-cases (ltb m.config.max_retransmits (p.retries + 1))) [
      | inl y ↦ rw (retransmit, e, y) (IsSettled-released c p m.pending m.next_channel m.acks e s)
      | inr n ↦
          rw (retransmit, e, n)
            (IsSettled-again m c p (record p { retries = p.retries + 1; timer = some p.timeout }) e
              refl s)
    ]
  ]

  tick_entry-IsValid :
      (m : Mrp Addr) (c : ℕ) (p : PendingMessage Addr) (timer : Option ℕ)
      → lookup c m.pending ≡ some p
      → IsValid m
      → IsValid (tick_entry m c p timer)
  unfolding tick_entry
  tick_entry-IsValid m c p none e s = s
  tick_entry-IsValid m c p (some left) e s = elim (Bool-cases (ltb 1 left)) [
    | inl y ↦
        rw (tick_entry, y) (IsSettled-again m c p (record p { timer = some (left - 1) }) e refl s)
    | inr n ↦
        rw (tick_entry, n)
          (retransmit-IsValid
            (record m { pending = insert c (record p { timer = none }) m.pending }) c
            (IsSettled-again m c p (record p { timer = none }) e refl s))
  ]

  tick-IsValid : (m : Mrp Addr) (c : ℕ) → IsValid m → IsValid (tick m c)
  unfolding tick
  tick-IsValid m c s = elim (Option-cases (lookup c m.pending)) [
    | inl e ↦ rw (tick, e) s
    | inr (p, e) ↦ rw (tick, e) (tick_entry-IsValid m c p p.timer e s)
  ]

  handle_ack-IsValid : (m : Mrp Addr) (c : ℕ) → IsValid m → IsValid (handle_ack m c).1
  unfolding handle_ack release
  handle_ack-IsValid m c s = elim (Option-cases (lookup c m.pending)) [
    | inl e ↦ rw (handle_ack, e) s
    | inr (p, e) ↦ rw (handle_ack, e) (IsSettled-released c p m.pending m.next_channel m.acks e s)
  ]

  close-IsValid : (m : Mrp Addr) → IsValid m → IsValid (close m)
  unfolding close lookup
  close-IsValid m s = elim (Bool-cases m.closed) [
    | inl y ↦ rw (close, y) s
    | inr n ↦
        rw (close, n) (IsSettled-fewer [] m.pending m.next_channel m.acks (λ d q e. absurd (cc)) s)
  ]

  apply-IsValid : (m : Mrp Addr) (e : Event Addr) → IsValid m → IsValid (apply m e)
  unfolding apply send_reliable
  apply-IsValid m (started msg addr counter exchange_id active) s =
      IsSettled-started counter _ m.pending m.next_channel m.acks refl s
  apply-IsValid m (ticked counter) s = tick-IsValid m counter s
  apply-IsValid m (timed_out counter) s = retransmit-IsValid m counter s
  apply-IsValid m (acknowledged counter) s = handle_ack-IsValid m counter s
  apply-IsValid m (cancelled counter) s = remove_pending-IsValid m counter s
  apply-IsValid m shut s = close-IsValid m s

  run-IsValid : (m : Mrp Addr) (es : List (Event Addr)) → IsValid m → IsValid (run m es)
  unfolding run
  run-IsValid m [] s = s
  run-IsValid m (e ∷ es) s = run-IsValid (apply m e) es (apply-IsValid m e s)

  new_mrp-IsValid : (config : MrpConfig) → IsValid (new_mrp config)
  unfolding new_mrp lookup count
  new_mrp-IsValid config = record {
    below = λ c p e. absurd (cc);
    waits = λ c p e. refl;
    apart = λ c d p q e f same. absurd (cc);
    once = λ channel. omega arith;
    unmade = λ channel h. refl;
  }

  -- From a new layer, in every sequence of sends, running timers, timeouts, acknowledgements, cancellations and
  -- closings, no channel of a waiting call is closed twice.
  pub run-closes_once :
      (config : MrpConfig) (es : List (Event Addr)) (channel : ℕ)
      → count channel (run (new_mrp config) es).acks ≤ 1
  run-closes_once config es channel =
      (run-IsValid (new_mrp config) es (new_mrp-IsValid config)).once channel
