-- ===== src/Protocol/Exchange/Reachable.antt =====
-- internal/protocol/exchange.go: what holds of every manager that its calls can make.
use matter_cli.Prelude.{ℕ, refl, Bool, List, [], ◌∷◌}
use matter_cli.Prelude.Maps.{lookup}
use matter_cli.Protocol.Message.{Message}
use matter_cli.Protocol.Exchange.{
  ExchangeManager, new_exchange_manager, register, new_exchange, resume, close_at, handle_message,
  receive_at, close_exchange, close_all,
}
use matter_cli.Protocol.Exchange.Routes.{find}
use matter_cli.Protocol.Exchange.Valid.{IsValid, register-IsValid}
use matter_cli.Protocol.Exchange.Preserves.{
  handle_message-IsValid, resume-IsValid, receive_at-IsValid, close_exchange-IsValid,
  close_all-IsValid, close_at-IsValid,
}

-- One call of the manager or of an owner of an exchange, but `Exchange.Close`. `resumed` is a message
-- in the `select` of `HandleMessage`: one that waits, or whose exchange has changed since the check.
pub data Step : ExchangeManager → ExchangeManager → Type 0 where
  created : (em : ExchangeManager) (session_id : ℕ) → Step em (new_exchange em session_id).1
  handled : (em : ExchangeManager) (msg : Message) → Step em (handle_message em msg).1
  resumed :
      (em : ExchangeManager) (object : ℕ) (msg : Message) (cancelled : Bool)
      → Step em (resume em object msg cancelled).1
  received : (em : ExchangeManager) (object : ℕ) → Step em (receive_at em object)
  ended : (em : ExchangeManager) (object : ℕ) → Step em (close_exchange em object)
  all_ended : (em : ExchangeManager) → Step em (close_all em)

-- The managers that the calls make, with the exchanges on which `Exchange.Close` was called.
pub data Reach : List ℕ → ExchangeManager → Type 0 where
  start : Reach [] new_exchange_manager
  next :
      {direct : List ℕ} {before after : ExchangeManager}
      → Reach direct before
      → Step before after
      → Reach direct after
  closes :
      {direct : List ℕ} {before : ExchangeManager} (object : ℕ)
      → Reach direct before
      → Reach (object ∷ direct) (close_at before object)

step-IsValid :
    (direct : List ℕ) {em after : ExchangeManager}
    → Step em after
    → IsValid direct em
    → IsValid direct after
unfolding new_exchange register
step-IsValid direct (created em session_id) v =
    register-IsValid direct (record em { next_id = (new_exchange em session_id).1.next_id }) _ refl
      refl (record { target = v.target; objects = v.objects })
step-IsValid direct (handled em msg) v = handle_message-IsValid direct em msg v
step-IsValid direct (resumed em object msg cancelled) v =
    resume-IsValid direct em object msg cancelled v
step-IsValid direct (received em object) v = receive_at-IsValid direct em object v
step-IsValid direct (ended em object) v = close_exchange-IsValid direct em object v
step-IsValid direct (all_ended em) v = close_all-IsValid direct em v

-- Whatever calls are made, in any order, a key leads to an exchange with that key, which is open
-- unless its owner has called `Exchange.Close` on it, and no channel buffers more than eight messages.
pub Reach-IsValid : (direct : List ℕ) (em : ExchangeManager) → Reach direct em → IsValid direct em
unfolding find lookup
Reach-IsValid direct em start = record {
  target = λ key object f. absurd (cc);
  objects = record { fresh = λ o e f. absurd (cc); bounded = λ o e f. absurd (cc) };
}
Reach-IsValid direct em (next {before = before} reach step) =
    step-IsValid direct step (Reach-IsValid direct before reach)
Reach-IsValid direct em (closes {direct = already} {before = before} object reach) =
    close_at-IsValid already before object (Reach-IsValid already before reach)
