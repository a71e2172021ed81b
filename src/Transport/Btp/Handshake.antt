-- ===== src/Transport/Btp/Handshake.antt =====
-- The sizes that a handshake of internal/transport/btp.go settles.
use matter_cli.Prelude.{
  ℕ, zero, suc, ◌^◌, ◌<◌, ◌≤◌, ◌≡◌, List, [], ◌∷◌, get_or, drop, All, All-drop, ok, arith,
}
use matter_cli.Prelude.Bits.{IsByte}
use matter_cli.Prelude.Le.{get_le, get_le-lt}
use matter_cli.Transport.Btp.{BtpSession, parse_handshake_response, init_handshake_from_response}

get_or-IsByte : (bytes : List ℕ) (i : ℕ) → All IsByte bytes → IsByte (get_or bytes i 0)
get_or-IsByte [] i h = omega arith
get_or-IsByte (b ∷ bytes) zero h = h.0
get_or-IsByte (b ∷ bytes) (suc i) h = get_or-IsByte bytes i h.1

-- A session that is set up from a response that the parser accepts, of any bytes, has segments of 20
-- bytes at least and less than 2 ^ 16, and a window of 1 to 255.
pub init-parse_handshake_response :
    (bytes : List ℕ) (version fragment window : ℕ) (s : BtpSession)
    → All IsByte bytes
    → parse_handshake_response bytes ≡ ok (version, fragment, window)
    → let t = init_handshake_from_response version fragment window s in
      (20 ≤ t.segment_size)
      × (t.segment_size < 2 ^ 16)
      × (0 < t.window_size)
      × (t.window_size < 2 ^ 8)
unfolding parse_handshake_response init_handshake_from_response
init-parse_handshake_response bytes version fragment window s h e =
    let fits : get_le 2 (drop 3 bytes) < 256 ^ 2 =
      get_le-lt 2 (drop 3 bytes) (All-drop IsByte 3 bytes h) in
    let byte : get_or bytes 5 0 < 256 = get_or-IsByte bytes 5 h in ground (arith, fits, byte)
