-- ===== src/Transport/Mrp/Kept.antt =====
-- internal/transport/mrp.go: what one event leaves of a pending message, and of the closed channels.
use matter_cli.Prelude.{
  ℕ, ◌+◌, ◌-◌, Option, none, ◌≤◌, ◌≡◌, refl, true, false, ltb, ◌==◌, some, List, [], ◌∷◌,
  Bool-cases, Option-cases, inl, inr, arith, ==_refl,
}
use matter_cli.Prelude.Maps.{lookup, insert, lookup-insert, lookup-delete}
use matter_cli.Transport.Mrp.{
  PendingMessage, Mrp, Event, started, ticked, timed_out, acknowledged, cancelled, shut,
  send_reliable, release, retransmit, tick_entry, tick, handle_ack, remove_pending, close, apply,
  run, count, count-append,
}

module _ {Addr : Type 0} where
  release-monotone :
      (m : Mrp Addr) (c channel : ℕ) (p : PendingMessage Addr)
      → count channel m.acks ≤ count channel (release m c p).acks
  unfolding release
  release-monotone m c channel p = rw (count-append channel p.acked m.acks) (ground arith)

  retransmit-monotone :
      (m : Mrp Addr) (c channel : ℕ) → count channel m.acks ≤ count channel (retransmit m c).acks
  unfolding retransmit
  retransmit-monotone m c channel = elim (Option-cases (lookup c m.pending)) [
    | inl e ↦ rw (retransmit, e) (omega arith)
    | inr (p, e) ↦ elim (Bool-cases (ltb m.config.max_retransmits (p.retries + 1))) [
      | inl y ↦ rw (retransmit, e, y) (release-monotone m c channel p)
      | inr n ↦ rw (retransmit, e, n) (omega arith)
    ]
  ]

  tick_entry-monotone :
      (m : Mrp Addr) (c channel : ℕ) (p : PendingMessage Addr) (timer : Option ℕ)
      → count channel m.acks ≤ count channel (tick_entry m c p timer).acks
  unfolding tick_entry
  tick_entry-monotone m c channel p none = omega arith
  tick_entry-monotone m c channel p (some left) = elim (Bool-cases (ltb 1 left)) [
    | inl y ↦ rw (tick_entry, y) (omega arith)
    | inr n ↦
        rw (tick_entry, n)
          (retransmit-monotone
            (record m { pending = insert c (record p { timer = none }) m.pending }) c channel)
  ]

  tick-monotone :
      (m : Mrp Addr) (c channel : ℕ) → count channel m.acks ≤ count channel (tick m c).acks
  unfolding tick
  tick-monotone m c channel = elim (Option-cases (lookup c m.pending)) [
    | inl e ↦ rw (tick, e) (omega arith)
    | inr (p, e) ↦ rw (tick, e) (tick_entry-monotone m c channel p p.timer)
  ]

  apply-monotone :
      (m : Mrp Addr) (e : Event Addr) (channel : ℕ)
      → count channel m.acks ≤ count channel (apply m e).acks
  unfolding apply send_reliable handle_ack remove_pending close
  apply-monotone m (started msg addr counter exchange_id active) channel = omega arith
  apply-monotone m (ticked c) channel = tick-monotone m c channel
  apply-monotone m (timed_out c) channel = retransmit-monotone m c channel
  apply-monotone m (acknowledged c) channel = elim (Option-cases (lookup c m.pending)) [
    | inl e ↦ rw (apply, handle_ack, e) (omega arith)
    | inr (p, e) ↦ rw (apply, handle_ack, e) (release-monotone m c channel p)
  ]
  apply-monotone m (cancelled c) channel = omega arith
  apply-monotone m shut channel = elim (Bool-cases m.closed) [
    | inl y ↦ rw (apply, close, y) (omega arith)
    | inr n ↦ rw (apply, close, n) (omega arith)
  ]

  pub run-monotone :
      (m : Mrp Addr) (es : List (Event Addr)) (channel : ℕ)
      → count channel m.acks ≤ count channel (run m es).acks
  unfolding run
  run-monotone m [] channel = omega arith
  run-monotone m (e ∷ es) channel =
      omega (arith, apply-monotone m e channel, run-monotone (apply m e) es channel)

  -- What stays of a message that an event leaves alone.
  pub record Kept (m after : Mrp Addr) (counter : ℕ) (p : PendingMessage Addr) : Type 0 where
    pub entry : lookup counter after.pending ≡ some p
    pub limit : after.config.max_retransmits ≡ m.config.max_retransmits

  pub retransmit-Kept :
      (m : Mrp Addr) (c counter : ℕ) (p : PendingMessage Addr)
      → (c == counter) ≡ false
      → lookup counter m.pending ≡ some p
      → Kept m (retransmit m c) counter p
  unfolding retransmit release
  retransmit-Kept m c counter p other e = elim (Option-cases (lookup c m.pending)) [
    | inl f ↦ rw (retransmit, f) (record { entry = e; limit = refl })
    | inr (q, f) ↦ elim (Bool-cases (ltb m.config.max_retransmits (q.retries + 1))) [
      | inl y ↦
          rw (retransmit, f, y)
            (record { entry = rw (lookup-delete c counter m.pending, other) e; limit = refl })
      | inr n ↦
          rw (retransmit, f, n)
            (record { entry = rw (lookup-insert c counter _ m.pending, other) e; limit = refl })
    ]
  ]

  tick_entry-Kept :
      (m : Mrp Addr) (c counter : ℕ) (p q : PendingMessage Addr) (timer : Option ℕ)
      → (c == counter) ≡ false
      → lookup counter m.pending ≡ some p
      → Kept m (tick_entry m c q timer) counter p
  unfolding tick_entry
  tick_entry-Kept m c counter p q none other e = record { entry = e; limit = refl }
  tick_entry-Kept m c counter p q (some left) other e = elim (Bool-cases (ltb 1 left)) [
    | inl y ↦
        rw (tick_entry, y)
          (record { entry = rw (lookup-insert c counter _ m.pending, other) e; limit = refl })
    | inr n ↦
        rw (tick_entry, n)
          (let kept =
              retransmit-Kept
                (record m { pending = insert c (record q { timer = none }) m.pending }) c counter p
                other
                (rw (lookup-insert c counter (record q { timer = none }) m.pending, other) e) in
            record { entry = kept.entry; limit = kept.limit })
  ]

  pub tick-Kept :
      (m : Mrp Addr) (c counter : ℕ) (p : PendingMessage Addr)
      → (c == counter) ≡ false
      → lookup counter m.pending ≡ some p
      → Kept m (tick m c) counter p
  unfolding tick
  tick-Kept m c counter p other e = elim (Option-cases (lookup c m.pending)) [
    | inl f ↦ rw (tick, f) (record { entry = e; limit = refl })
    | inr (q, f) ↦ rw (tick, f) (tick_entry-Kept m c counter p q q.timer other e)
  ]

  -- The message is given up at the timeout after the last attempt.
  pub retransmit-last :
      (m : Mrp Addr) (counter : ℕ) (p : PendingMessage Addr)
      → lookup counter m.pending ≡ some p
      → ltb m.config.max_retransmits (p.retries + 1) ≡ true
      → 1 ≤ count p.acked (retransmit m counter).acks
  unfolding retransmit release
  retransmit-last m counter p e y =
      rw (retransmit, e, y, count-append p.acked p.acked m.acks, ==_refl p.acked) (omega arith)

  pub retransmit-again :
      (m : Mrp Addr) (counter : ℕ) (p : PendingMessage Addr)
      → lookup counter m.pending ≡ some p
      → ltb m.config.max_retransmits (p.retries + 1) ≡ false
      → Kept m
          (retransmit m counter)
          counter
          (record p { retries = p.retries + 1; timer = some p.timeout })
  unfolding retransmit
  retransmit-again m counter p e n =
      rw (retransmit, e, n)
        (record {
          entry = rw (lookup-insert counter counter _ m.pending, ==_refl counter) refl;
          limit = refl;
        })

  pub handle_ack-Kept :
      (m : Mrp Addr) (c counter : ℕ) (p : PendingMessage Addr)
      → (c == counter) ≡ false
      → lookup counter m.pending ≡ some p
      → Kept m (handle_ack m c).1 counter p
  unfolding handle_ack release
  handle_ack-Kept m c counter p other e = elim (Option-cases (lookup c m.pending)) [
    | inl f ↦ rw (handle_ack, f) (record { entry = e; limit = refl })
    | inr (q, f) ↦
        rw (handle_ack, f)
          (record { entry = rw (lookup-delete c counter m.pending, other) e; limit = refl })
  ]

  -- An ending timer is a timeout of the entry whose timer stands still.
  pub tick-runs :
      (m : Mrp Addr) (counter : ℕ) (p : PendingMessage Addr) (left : ℕ)
      → lookup counter m.pending ≡ some p
      → p.timer ≡ some left
      → ltb 1 left ≡ true
      → Kept m (tick m counter) counter (record p { timer = some (left - 1) })
  unfolding tick tick_entry
  tick-runs m counter p left e t y =
      rw (tick, e, tick_entry, t, y)
        (record {
          entry = rw (lookup-insert counter counter _ m.pending, ==_refl counter) refl;
          limit = refl;
        })

  abbrev pub fired : Mrp Addr → ℕ → PendingMessage Addr → Mrp Addr
  fired m counter p = record m { pending = insert counter (record p { timer = none }) m.pending }

  pub fired-entry :
      (m : Mrp Addr) (counter : ℕ) (p : PendingMessage Addr)
      → lookup counter (fired m counter p).pending ≡ some (record p { timer = none })
  fired-entry m counter p =
      rw (lookup-insert counter counter (record p { timer = none }) m.pending, ==_refl counter) refl

  pub tick-fires :
      (m : Mrp Addr) (counter : ℕ) (p : PendingMessage Addr) (left : ℕ)
      → lookup counter m.pending ≡ some p
      → p.timer ≡ some left
      → ltb 1 left ≡ false
      → tick m counter ≡ retransmit (fired m counter p) counter
  unfolding tick tick_entry
  tick-fires m counter p left e t n = rw (tick, e, tick_entry, t, n) refl
