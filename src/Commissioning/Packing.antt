-- ===== src/Commissioning/Packing.antt =====
-- internal/commissioning/payload.go: bit fields in a byte buffer, the lowest bit first.
pub mod Fields
use matter_cli.Prelude.{
  ℕ, zero, suc, ◌+◌, ◌/◌, ◌%◌, ◌^◌, not, ◌==◌, if◌then◌else◌, List, [], ◌∷◌, get_or, bit_and,
  bit_or,
}

-- `buf[i] |= mask`. The buffers of the source are long enough; an index past the end changes nothing.
unfoldable pub or_byte : List ℕ → ℕ → ℕ → List ℕ
or_byte [] i mask = []
or_byte (b ∷ bytes) zero mask = bit_or b mask ∷ bytes
or_byte (b ∷ bytes) (suc i) mask = b ∷ or_byte bytes i mask

-- The rounds from `i` on.
unfoldable pub write_bits_from : ℕ → ℕ → List ℕ → ℕ → ℕ → List ℕ
write_bits_from zero i buf offset value = buf
write_bits_from (suc rounds) i buf offset value =
    let index = offset + i in
    let buf' =
      if not (bit_and value (2 ^ i) == 0) then or_byte buf (index / 8) (2 ^ (index % 8)) else buf in
    write_bits_from rounds (i + 1) buf' offset value

unfoldable pub write_bits : List ℕ → ℕ → ℕ → ℕ → List ℕ
write_bits buf offset len value = write_bits_from len 0 buf offset value

unfoldable pub read_bits_from : ℕ → ℕ → List ℕ → ℕ → ℕ → ℕ
read_bits_from zero i buf offset value = value
read_bits_from (suc rounds) i buf offset value =
    let index = offset + i in
    let value' =
      if not (bit_and (get_or buf (index / 8) 0) (2 ^ (index % 8)) == 0)
      then bit_or value (2 ^ i)
      else value in
    read_bits_from rounds (i + 1) buf offset value'

unfoldable pub read_bits : List ℕ → ℕ → ℕ → ℕ
read_bits buf offset len = read_bits_from len 0 buf offset 0
