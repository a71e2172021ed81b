-- ===== src/Protocol/Session/Replay.antt =====
-- Sequences of received counters: what internal/protocol/session.go accepts of them.
use matter_cli.Prelude.{
  ℕ, ◌≡◌, refl, true, false, if◌then◌else◌, List, [], ◌∷◌, Result, ok, err, arith, Bool-cases, inl,
  inr,
}
use matter_cli.Protocol.Session.{CounterError, Session, validate, validate_peer_counter}
use matter_cli.Protocol.Session.Window.{
  contains, contains-le, acceptable, answer, Tracks, fresh, validate-Agrees,
}

abbrev keep : Result CounterError (Unit {0}) → ℕ → List ℕ → List ℕ
keep (ok _) c xs = c ∷ xs
keep (err _) c xs = xs

-- The counters that a session accepts of a sequence, newest first, behind those of before.
unfoldable pub accepted : Session → List ℕ → List ℕ → List ℕ
accepted s before [] = before
accepted s before (c ∷ cs) =
    let (r, s') = validate_peer_counter s c in accepted s' (keep r c before) cs

abbrev pub IsDistinct : List ℕ → Type 0
IsDistinct [] = Unit
IsDistinct (x ∷ xs) = (contains x xs ≡ false) × IsDistinct xs

acceptable_fresh : (xs : List ℕ) (c : ℕ) → acceptable xs c ≡ true → contains c xs ≡ false
unfolding acceptable
acceptable_fresh [] c h = refl
acceptable_fresh (x ∷ xs) c h = ground (arith, contains-le c (x ∷ xs))

keep-answer :
    (xs : List ℕ) (c : ℕ) → keep (answer xs c) c xs ≡ (if acceptable xs c then c ∷ xs else xs)
unfolding answer
keep-answer xs c = ground arith

-- The specification's run.
unfoldable pub acceptable_all : List ℕ → List ℕ → List ℕ
acceptable_all before [] = before
acceptable_all before (c ∷ cs) =
    acceptable_all (if acceptable before c then c ∷ before else before) cs

-- From a session whose counter state tracks `before`, the counters of any sequence that the session
-- accepts are those that the specification accepts.
pub accepted-acceptable_all :
    (s : Session) (before cs : List ℕ)
    → Tracks s.peer_counter before
    → accepted s before cs ≡ acceptable_all before cs
unfolding accepted acceptable_all validate_peer_counter
accepted-acceptable_all s before [] h = refl
accepted-acceptable_all s before (c ∷ cs) h =
    let step = validate-Agrees s.peer_counter before c h in
    rw (step.result, keep-answer before c)
      (accepted-acceptable_all (record s { peer_counter = (validate s.peer_counter c).1 }) _ cs
        step.state)

acceptable_all-IsDistinct :
    (before cs : List ℕ) → IsDistinct before → IsDistinct (acceptable_all before cs)
unfolding acceptable_all
acceptable_all-IsDistinct before [] h = h
acceptable_all-IsDistinct before (c ∷ cs) h = elim (Bool-cases (acceptable before c)) [
  | inl e ↦ rw e (acceptable_all-IsDistinct (c ∷ before) cs (acceptable_fresh before c e, h))
  | inr e ↦ rw e (acceptable_all-IsDistinct before cs h)
]

-- A session that has not yet received a counter never accepts the same one twice, in any sequence.
pub accepted-IsDistinct :
    (s : Session) (cs : List ℕ) → s.peer_counter.initiated ≡ false → IsDistinct (accepted s [] cs)
accepted-IsDistinct s cs h =
    rw (accepted-acceptable_all s [] cs (fresh h)) (acceptable_all-IsDistinct [] cs tt)
