-- ===== src/Tlv/RoundTrip.antt =====
-- What the writer of internal/tlv/encoder.go has put is what the reader of decoder.go gives back.
use matter_cli.Prelude.{
  ℕ, ◌^◌, ◌<◌, ◌≡◌, refl, sym, ◌∙◌, Bool, true, false, if◌then◌else◌, List, [], ◌++◌, length, ok,
  arith,
}
use matter_cli.Prelude.Le.{put_le}
use matter_cli.Prelude.Int.{ℤ, within, to_bits}
use matter_cli.Tlv.Types.{
  Tag, Element, Value, absent, int, uint, boolean, float32, float64, utf8, octets, type_bool_false,
  type_bool_true, type_float32, type_float64, type_utf8_string1, type_octet_string1, type_null,
  type_structure, type_array, type_list, type_end_of_container, anonymous_tag,
}
use matter_cli.Tlv.Tags.{IsCanonical}
use matter_cli.Tlv.Writer.{
  Writer, Write, write_element, signed_type, put_signed_int, unsigned_type, put_unsigned_int,
  put_bool, put_float32, put_float64, string_element_type, put_string, put_utf8_string,
  put_octet_string, put_null, start_structure, start_array, start_list, end_container,
}
use matter_cli.Tlv.Reader.{Reader, next, read_value}
use matter_cli.Tlv.Elements.{Wrote, Wrote-value, Wrote-open, Wrote-close, write-write, write-nil}
use matter_cli.Tlv.Values.{
  signed-lt, sized-lt, signed_as, SizedAs, sized_as, unsigned_type-eq, reads_float32, reads_float64,
  reads_signed, reads_unsigned, reads_utf8, reads_octets,
}

-- The calls that a client makes of a writer.
pub data Item : Type 0 where
  signed_int : Tag → ℤ → Item
  unsigned_int : Tag → ℕ → Item
  bool : Tag → Bool → Item
  float_single : Tag → ℕ → Item
  float_double : Tag → ℕ → Item
  utf8_string : Tag → List ℕ → Item
  octet_string : Tag → List ℕ → Item
  nothing : Tag → Item
  open_structure open_array open_list : Tag → Item
  close : Item

unfoldable pub put : Item → Write
put (signed_int t v) = put_signed_int t v
put (unsigned_int t v) = put_unsigned_int t v
put (bool t v) = put_bool t v
put (float_single t v) = put_float32 t v
put (float_double t v) = put_float64 t v
put (utf8_string t v) = put_utf8_string t v
put (octet_string t v) = put_octet_string t v
put (nothing t) = put_null t
put (open_structure t) = start_structure t
put (open_array t) = start_array t
put (open_list t) = start_list t
put close = end_container

unfoldable pub tag_of : Item → Tag
tag_of (signed_int t v) = t
tag_of (unsigned_int t v) = t
tag_of (bool t v) = t
tag_of (float_single t v) = t
tag_of (float_double t v) = t
tag_of (utf8_string t v) = t
tag_of (octet_string t v) = t
tag_of (nothing t) = t
tag_of (open_structure t) = t
tag_of (open_array t) = t
tag_of (open_list t) = t
tag_of close = anonymous_tag

-- The element type that is on the wire for an item, and the value that a reader makes of it.
unfoldable pub type_of : Item → ℕ
type_of (signed_int t v) = (signed_type v).0
type_of (unsigned_int t v) = (unsigned_type v).0
type_of (bool t v) = if v then type_bool_true else type_bool_false
type_of (float_single t v) = type_float32
type_of (float_double t v) = type_float64
type_of (utf8_string t v) = (string_element_type (length v) type_utf8_string1).0
type_of (octet_string t v) = (string_element_type (length v) type_octet_string1).0
type_of (nothing t) = type_null
type_of (open_structure t) = type_structure
type_of (open_array t) = type_array
type_of (open_list t) = type_list
type_of close = type_end_of_container

unfoldable pub value_of : Item → Value
value_of (signed_int t v) = int v
value_of (unsigned_int t v) = uint v
value_of (bool t v) = boolean v
value_of (float_single t v) = float32 v
value_of (float_double t v) = float64 v
value_of (utf8_string t v) = utf8 v
value_of (octet_string t v) = octets v
value_of _ = absent

abbrev pub element_of : Item → Element
element_of i = record { tag = tag_of i; type_ = type_of i; value = value_of i }

-- What Go's types give: 64-bit numbers, float bits, and lengths that are an `int`.
abbrev pub FitsType : Item → Type 0
FitsType (signed_int t v) = within (2 ^ 63) v ≡ true
FitsType (unsigned_int t v) = v < 2 ^ 64
FitsType (float_single t v) = v < 2 ^ 32
FitsType (float_double t v) = v < 2 ^ 64
FitsType (utf8_string t v) = length v < 2 ^ 63
FitsType (octet_string t v) = length v < 2 ^ 63
FitsType _ = Unit

abbrev pub IsWritable : Item → Type 0
IsWritable i = IsCanonical (tag_of i) × FitsType i

-- A call that ends a container needs one to be open.
abbrev pub IsOpenFor : Item → Writer → Type 0
IsOpenFor close w = 0 < length w.containers
IsOpenFor _ w = Unit

-- What a call of the writer does: it succeeds, but for an end with nothing open.
unfoldable pub PutResult : Item → Writer → Type 0
PutResult i w = (w' : Writer) × (put i w ≡ (ok tt, w')) × Wrote (element_of i) w w'

put_signed :
    (t : Tag) (v : ℤ) (w : Writer) → IsWritable (signed_int t v) → PutResult (signed_int t v) w
unfolding PutResult put tag_of type_of value_of put_signed_int
put_signed t v w (c, f) =
    Wrote-value t (signed_type v).0 (put_le (signed_type v).1 (to_bits (256 ^ (signed_type v).1) v))
      (int v) w c (reads_signed v (signed_as v f)) (signed-lt v (signed_as v f))

put_unsigned :
    (t : Tag) (v : ℕ) (w : Writer) → IsWritable (unsigned_int t v) → PutResult (unsigned_int t v) w
unfolding PutResult put tag_of type_of value_of put_unsigned_int
put_unsigned t v w (c, f) =
    let sized : SizedAs 0x04 v (unsigned_type v) = rw (unsigned_type-eq v) (sized_as 0x04 v f) in
    Wrote-value t (unsigned_type v).0 (put_le (unsigned_type v).1 v) (uint v) w c
      (reads_unsigned v sized) (sized-lt 0x04 v (omega arith) sized)

put_boolean : (t : Tag) (v : Bool) (w : Writer) → IsWritable (bool t v) → PutResult (bool t v) w
unfolding PutResult put tag_of type_of value_of put_bool
put_boolean t true w (c, f) =
    let (w', e, wrote) =
      Wrote-value t type_bool_true [] (boolean true) w c (unfold read_value in λ rest. refl)
        (omega arith) in
    (w', sym (write-nil (write_element t type_bool_true) w) ∙ e, wrote)
put_boolean t false w (c, f) =
    let (w', e, wrote) =
      Wrote-value t type_bool_false [] (boolean false) w c (unfold read_value in λ rest. refl)
        (omega arith) in
    (w', sym (write-nil (write_element t type_bool_false) w) ∙ e, wrote)

put_single :
    (t : Tag) (v : ℕ) (w : Writer) → IsWritable (float_single t v) → PutResult (float_single t v) w
unfolding PutResult put tag_of type_of value_of put_float32
put_single t v w (c, f) =
    Wrote-value t type_float32 (put_le 4 v) (float32 v) w c (reads_float32 v (omega arith))
      (omega arith)

put_double :
    (t : Tag) (v : ℕ) (w : Writer) → IsWritable (float_double t v) → PutResult (float_double t v) w
unfolding PutResult put tag_of type_of value_of put_float64
put_double t v w (c, f) =
    Wrote-value t type_float64 (put_le 8 v) (float64 v) w c (reads_float64 v (omega arith))
      (omega arith)

put_text :
    (t : Tag) (v : List ℕ) (w : Writer)
    → IsWritable (utf8_string t v)
    → PutResult (utf8_string t v) w
unfolding PutResult put tag_of type_of value_of put_utf8_string put_string
put_text t v w (c, f) =
    let sized = sized_as type_utf8_string1 (length v) (omega arith) in
    let p = string_element_type (length v) type_utf8_string1 in
    let (w', e, wrote) =
      Wrote-value t p.0 (put_le p.1 (length v) ++ v) (utf8 v) w c (reads_utf8 v f sized)
        (sized-lt type_utf8_string1 (length v) (omega arith) sized) in
    (w', write-write (write_element t p.0) (put_le p.1 (length v)) v w ∙ e, wrote)

put_octets :
    (t : Tag) (v : List ℕ) (w : Writer)
    → IsWritable (octet_string t v)
    → PutResult (octet_string t v) w
unfolding PutResult put tag_of type_of value_of put_octet_string put_string
put_octets t v w (c, f) =
    let sized = sized_as type_octet_string1 (length v) (omega arith) in
    let p = string_element_type (length v) type_octet_string1 in
    let (w', e, wrote) =
      Wrote-value t p.0 (put_le p.1 (length v) ++ v) (octets v) w c (reads_octets v f sized)
        (sized-lt type_octet_string1 (length v) (omega arith) sized) in
    (w', write-write (write_element t p.0) (put_le p.1 (length v)) v w ∙ e, wrote)

put_nothing : (t : Tag) (w : Writer) → IsWritable (nothing t) → PutResult (nothing t) w
unfolding PutResult put tag_of type_of value_of put_null
put_nothing t w (c, f) =
    let (w', e, wrote) =
      Wrote-value t type_null [] absent w c (unfold read_value in λ rest. refl) (omega arith) in
    (w', sym (write-nil (write_element t type_null) w) ∙ e, wrote)

put_structure :
    (t : Tag) (w : Writer) → IsWritable (open_structure t) → PutResult (open_structure t) w
unfolding PutResult put tag_of type_of value_of start_structure
put_structure t w (c, f) = Wrote-open t type_structure w c (omega arith) refl refl

put_array : (t : Tag) (w : Writer) → IsWritable (open_array t) → PutResult (open_array t) w
unfolding PutResult put tag_of type_of value_of start_array
put_array t w (c, f) = Wrote-open t type_array w c (omega arith) refl refl

put_list : (t : Tag) (w : Writer) → IsWritable (open_list t) → PutResult (open_list t) w
unfolding PutResult put tag_of type_of value_of start_list
put_list t w (c, f) = Wrote-open t type_list w c (omega arith) refl refl

put_close : (w : Writer) → 0 < length w.containers → PutResult close w
unfolding PutResult put tag_of type_of value_of
put_close w h = Wrote-close w h

pub put_result : (i : Item) (w : Writer) → IsWritable i → IsOpenFor i w → PutResult i w
put_result (signed_int t v) w h o = put_signed t v w h
put_result (unsigned_int t v) w h o = put_unsigned t v w h
put_result (bool t v) w h o = put_boolean t v w h
put_result (float_single t v) w h o = put_single t v w h
put_result (float_double t v) w h o = put_double t v w h
put_result (utf8_string t v) w h o = put_text t v w h
put_result (octet_string t v) w h o = put_octets t v w h
put_result (nothing t) w h o = put_nothing t w h
put_result (open_structure t) w h o = put_structure t w h
put_result (open_array t) w h o = put_array t w h
put_result (open_list t) w h o = put_list t w h
put_result close w h o = put_close w o

-- A call of the writer with a canonical tag and a value of its Go type succeeds, an end of a
-- container if one is open. It appends bytes from which a reader with the same containers open reads
-- exactly the element that was put, whatever follows them, and the containers that are open
-- afterwards are the writer's again.
pub next-put :
    (i : Item) (w : Writer) (r : Reader) (rest : List ℕ)
    → IsWritable i
    → IsOpenFor i w
    → r.done ≡ false
    → r.containers ≡ w.containers
    → (w' : Writer) × (bytes : List ℕ) × (put i w ≡ (ok tt, w'))
      × (w'.buf ≡ w.buf ++ bytes)
      × (next (record r { input = bytes ++ rest })
          ≡ (ok tt, record r { input = rest; containers = w'.containers; elem_ = element_of i }))
unfolding PutResult
next-put i w r rest h o live same =
    let (w', e, wrote) = put_result i w h o in
    (
      w',
      wrote.bytes,
      e,
      wrote.appended,
      wrote.read_back (record r { input = wrote.bytes ++ rest }) rest live same refl,
    )
