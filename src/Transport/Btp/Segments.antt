-- ===== src/Transport/Btp/Segments.antt =====
-- The segments that `segment` of internal/transport/btp.go makes: their size, and their numbers.
use matter_cli.Prelude.{
  ℕ, zero, suc, ◌+◌, ◌%◌, ◌^◌, ◌≤◌, ◌<◌, ◌≡◌, Bool, true, false, leb, ◌==◌, List, [], ◌∷◌, length,
  take, drop, All, arith, length-take, Bool-cases, inl, inr,
}
use matter_cli.Transport.Btp.{BtpSession, build_segment, max_payload, segment_loop, segment}

-- A segment fits where its payload is at most `max_payload`.
build_segment_fits :
    (payload : List ℕ) (is_first is_last : Bool) (total : ℕ) (s : BtpSession)
    → 6 ≤ s.segment_size
    → length payload ≤ max_payload is_first s
    → length (build_segment payload is_first is_last total s).0 ≤ s.segment_size
unfolding build_segment max_payload
build_segment_fits payload is_first is_last total s h fits = ground arith

segment_loop_fits :
    (rounds total : ℕ) (is_first : Bool) (rest : List ℕ) (s : BtpSession)
    → 6 ≤ s.segment_size
    → All (λ seg. length seg ≤ s.segment_size) (segment_loop rounds total is_first rest s).0
unfolding segment_loop build_segment
segment_loop_fits zero total is_first rest s h = tt
segment_loop_fits (suc rounds) total is_first [] s h = tt
segment_loop_fits (suc rounds) total is_first (b ∷ bs) s h =
    let size : ℕ = max_payload is_first s in
    let is_last : Bool = leb (length (b ∷ bs)) size in
    let s' : BtpSession = (build_segment (take size (b ∷ bs)) is_first is_last total s).1 in
    (
      build_segment_fits (take size (b ∷ bs)) is_first is_last total s h
          (omega (arith, length-take size (b ∷ bs))),
      segment_loop_fits rounds total false (drop size (b ∷ bs)) s' h,
    )

-- No segment of a message is longer than the session's segment size, where that is 6 or more.
pub segment_fits :
    (msg : List ℕ) (s : BtpSession)
    → 6 ≤ s.segment_size
    → All (λ seg. length seg ≤ s.segment_size) (segment msg s).0
unfolding segment
segment_fits msg s h = elim (Bool-cases (length msg % 2 ^ 16 == 0)) [
  | inl e ↦ rw e (build_segment_fits [] true true (length msg % 2 ^ 16) s h (omega arith), tt)
  | inr e ↦ rw e (segment_loop_fits (length msg) (length msg % 2 ^ 16) true msg s h)
]

-- Each segment takes one sequence number, and the pending ack goes with the first.
segment_loop_numbers :
    (rounds total : ℕ) (is_first : Bool) (rest : List ℕ) (s : BtpSession)
    → s.local_seq < 2 ^ 8
    → (segment_loop rounds total is_first rest s).1.local_seq
      ≡ (s.local_seq + length (segment_loop rounds total is_first rest s).0) % 2 ^ 8
unfolding segment_loop build_segment
segment_loop_numbers zero total is_first rest s h = omega arith
segment_loop_numbers (suc rounds) total is_first [] s h = omega arith
segment_loop_numbers (suc rounds) total is_first (b ∷ bs) s h =
    let size : ℕ = max_payload is_first s in
    let is_last : Bool = leb (length (b ∷ bs)) size in
    let s' : BtpSession = (build_segment (take size (b ∷ bs)) is_first is_last total s).1 in
    omega (arith, segment_loop_numbers rounds total false (drop size (b ∷ bs)) s' (omega arith))

-- `segment` moves the next sequence number, a byte, on by the number of its segments, modulo 256.
pub segment_numbers :
    (msg : List ℕ) (s : BtpSession)
    → s.local_seq < 2 ^ 8
    → (segment msg s).1.local_seq ≡ (s.local_seq + length (segment msg s).0) % 2 ^ 8
unfolding segment build_segment
segment_numbers msg s h =
    ground (arith, segment_loop_numbers (length msg) (length msg % 2 ^ 16) true msg s)
