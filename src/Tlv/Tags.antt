-- ===== src/Tlv/Tags.antt =====
-- Control bytes and tags of internal/tlv, read back.
use matter_cli.Prelude.{
  ℕ, ◌%◌, ◌^◌, ◌<◌, ◌≡◌, refl, Bool, true, ◌&&◌, ◌==◌, List, [], ◌++◌, length, take-length_append,
  drop-length_append, length-append, ok, arith, bit_and, bit_or,
}
use matter_cli.Prelude.Bits.{all_below, all_below_sound}
use matter_cli.Prelude.Le.{put_le, get_le-put_le}
use matter_cli.Tlv.Types.{
  TagType, anonymous, context_specific, common_profile2, common_profile4, implicit_profile2,
  implicit_profile4, fully_qualified6, fully_qualified8, unknown, Tag, tag_code, tag_type_of,
  encode_tag_as, encode_tag, decode_tag, read_full, tag_size,
}

abbrev pub IsKnown : TagType → Type 0
IsKnown (unknown n) = ⊥
IsKnown _ = Unit

control_row : TagType → ℕ → Bool
control_row t e =
    let cb = bit_or (tag_code t) e in (bit_and cb 0xe0 == tag_code t) && (bit_and cb 0x1f == e)

control_table : (t : TagType) → IsKnown t → all_below 32 (control_row t) ≡ true
unfolding all_below control_row tag_code
control_table anonymous k = refl
control_table context_specific k = refl
control_table common_profile2 k = refl
control_table common_profile4 k = refl
control_table implicit_profile2 k = refl
control_table implicit_profile4 k = refl
control_table fully_qualified6 k = refl
control_table fully_qualified8 k = refl
control_table (unknown n) k = absurd k

tag_type_of-code : (t : TagType) → IsKnown t → tag_type_of (tag_code t) ≡ t
unfolding tag_type_of tag_code
tag_type_of-code anonymous k = refl
tag_type_of-code context_specific k = refl
tag_type_of-code common_profile2 k = refl
tag_type_of-code common_profile4 k = refl
tag_type_of-code implicit_profile2 k = refl
tag_type_of-code implicit_profile4 k = refl
tag_type_of-code fully_qualified6 k = refl
tag_type_of-code fully_qualified8 k = refl
tag_type_of-code (unknown n) k = absurd k

-- The two parts of a control byte come back.
pub control_byte :
    (t : TagType) (e : ℕ)
    → IsKnown t
    → e < 32
    → (tag_type_of (bit_and (bit_or (tag_code t) e) 0xe0) ≡ t)
      × (bit_and (bit_or (tag_code t) e) 0x1f ≡ e)
unfolding control_row
control_byte t e k h =
    let row = all_below_sound 32 (control_row t) e (control_table t k) h in
    let same : bit_and (bit_or (tag_code t) e) 0xe0 ≡ tag_code t = ground arith in
    (rw same (tag_type_of-code t k), ground arith)

-- The fields that the form carries fit it, and the others are zero.
abbrev pub CanonicalAs : TagType → Tag → Type 0
CanonicalAs anonymous t = (t.vendor_id ≡ 0) × (t.profile_num ≡ 0) × (t.tag_num ≡ 0)
CanonicalAs context_specific t = (t.vendor_id ≡ 0) × (t.profile_num ≡ 0) × (t.tag_num < 256)
CanonicalAs common_profile2 t = (t.vendor_id ≡ 0) × (t.profile_num ≡ 0) × (t.tag_num < 2 ^ 16)
CanonicalAs implicit_profile2 t = (t.vendor_id ≡ 0) × (t.profile_num ≡ 0) × (t.tag_num < 2 ^ 16)
CanonicalAs common_profile4 t = (t.vendor_id ≡ 0) × (t.profile_num ≡ 0) × (t.tag_num < 2 ^ 32)
CanonicalAs implicit_profile4 t = (t.vendor_id ≡ 0) × (t.profile_num ≡ 0) × (t.tag_num < 2 ^ 32)
CanonicalAs fully_qualified6 t =
    (t.vendor_id < 2 ^ 16) × (t.profile_num < 2 ^ 16) × (t.tag_num < 2 ^ 16)
CanonicalAs fully_qualified8 t =
    (t.vendor_id < 2 ^ 16) × (t.profile_num < 2 ^ 16) × (t.tag_num < 2 ^ 32)
CanonicalAs (unknown n) t = ⊥

abbrev pub IsCanonical : Tag → Type 0
IsCanonical t = CanonicalAs t.type_ t

pub Canonical-IsKnown : (k : TagType) (t : Tag) → CanonicalAs k t → IsKnown k
Canonical-IsKnown (unknown n) t c = c
Canonical-IsKnown _ t c = tt

pub read_full-append :
    (n : ℕ) (xs rest : List ℕ) → length xs ≡ n → read_full n (xs ++ rest) ≡ ok (xs, rest)
unfolding read_full
read_full-append n xs rest h =
    rw (take-length_append n xs rest h, drop-length_append n xs rest h)
      (ground (arith, length-append xs rest))

-- The bytes of a tag, and that they are read back whatever follows.
pub record TagBytes (t : Tag) (bytes : List ℕ) : Type 0 where
  pub encoded : encode_tag t ≡ ok bytes
  pub size : length bytes ≡ tag_size t.type_
  pub decoded : (rest : List ℕ) → decode_tag t.type_ (bytes ++ rest) ≡ ok (t, rest)

tag_bytes :
    (k : TagType) (t : Tag) → t.type_ ≡ k → CanonicalAs k t → (bytes : List ℕ) × TagBytes t bytes
unfolding encode_tag_as decode_tag tag_size read_full
tag_bytes anonymous t e c =
    ([], record { encoded = rw e; size = rw e; decoded = λ rest. rw e (ground arith) })
tag_bytes context_specific t e c = (
  put_le 1 t.tag_num,
  record {
    encoded = rw e;
    size = rw e;
    decoded = λ rest. ground (arith, get_le-put_le 1 t.tag_num []);
  },
)
tag_bytes common_profile2 t e c = (
  put_le 2 (t.tag_num % 2 ^ 16),
  record {
    encoded = rw e;
    size = rw e;
    decoded = λ rest. ground (arith, get_le-put_le 2 t.tag_num []);
  },
)
tag_bytes common_profile4 t e c = (
  put_le 4 t.tag_num,
  record {
    encoded = rw e;
    size = rw e;
    decoded = λ rest. ground (arith, get_le-put_le 4 t.tag_num []);
  },
)
tag_bytes implicit_profile2 t e c = (
  put_le 2 (t.tag_num % 2 ^ 16),
  record {
    encoded = rw e;
    size = rw e;
    decoded = λ rest. ground (arith, get_le-put_le 2 t.tag_num []);
  },
)
tag_bytes implicit_profile4 t e c = (
  put_le 4 t.tag_num,
  record {
    encoded = rw e;
    size = rw e;
    decoded = λ rest. ground (arith, get_le-put_le 4 t.tag_num []);
  },
)
tag_bytes fully_qualified6 t e c = (
  put_le 2 t.vendor_id ++ (put_le 2 t.profile_num ++ put_le 2 (t.tag_num % 2 ^ 16)),
  record {
    encoded = rw e;
    size = rw e;
    decoded = λ rest. ground (
      arith,
      get_le-put_le 2 t.vendor_id [],
      get_le-put_le 2 t.profile_num [],
      get_le-put_le 2 t.tag_num [],
    );
  },
)
tag_bytes fully_qualified8 t e c = (
  put_le 2 t.vendor_id ++ (put_le 2 t.profile_num ++ put_le 4 t.tag_num),
  record {
    encoded = rw e;
    size = rw e;
    decoded = λ rest. ground (
      arith,
      get_le-put_le 2 t.vendor_id [],
      get_le-put_le 2 t.profile_num [],
      get_le-put_le 4 t.tag_num [],
    );
  },
)
tag_bytes (unknown n) t e c = absurd c

-- A tag with fields that its form carries is written in as many bytes as `tagSize` says, and is read
-- back from them whatever follows.
pub decode-encode_tag : (t : Tag) → IsCanonical t → (bytes : List ℕ) × TagBytes t bytes
decode-encode_tag t c = tag_bytes t.type_ t refl c
