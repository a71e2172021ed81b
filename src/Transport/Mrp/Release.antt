-- ===== src/Transport/Mrp/Release.antt =====
-- internal/transport/mrp.go: a message that nobody acknowledges.
use matter_cli.Prelude.{
  ℕ, ◌+◌, ◌≤◌, ◌≡◌, Bool, true, false, not, if◌then◌else◌, ◌==◌, some, List, [], ◌∷◌,
}
use matter_cli.Prelude.Maps.{lookup}
use matter_cli.Transport.Mrp.{
  PendingMessage, Mrp, Event, started, ticked, timed_out, acknowledged, cancelled, shut,
}
use matter_cli.Transport.Mrp.Kept.{Kept}

module _ {Addr : Type 0} where
  -- Is the event none that ends or replaces the message with that counter?
  unfoldable pub spares : ℕ → Event Addr → Bool
  spares counter (started msg addr c exchange_id active) = not (c == counter)
  spares counter (ticked c) = true
  spares counter (timed_out c) = true
  spares counter (acknowledged c) = not (c == counter)
  spares counter (cancelled c) = not (c == counter)
  spares counter shut = false

  -- For how long the timer of that message runs.
  unfoldable pub nanoseconds : ℕ → List (Event Addr) → ℕ
  nanoseconds counter [] = 0
  nanoseconds counter (ticked c ∷ es) =
      let rest = nanoseconds counter es in if c == counter then rest + 1 else rest
  nanoseconds counter (_ ∷ es) = nanoseconds counter es

  -- A pending message with that many attempts left, whose timer runs for `r` more nanoseconds.
  pub record Waits (m : Mrp Addr) (counter : ℕ) (p : PendingMessage Addr) (attempts r : ℕ)
      : Type 0 where
    pub entry : lookup counter m.pending ≡ some p
    pub timer : p.timer ≡ some r
    pub runs : 1 ≤ r
    pub interval : 1 ≤ p.timeout
    pub tries : p.retries + attempts ≡ m.config.max_retransmits

  abbrev retried : PendingMessage Addr → PendingMessage Addr
  retried p = record p { retries = p.retries + 1; timer = some p.timeout }
