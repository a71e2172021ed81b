-- ===== src/Tests/Tlv.antt =====
-- internal/tlv at concrete inputs.
use matter_cli.Prelude.{ℕ, ◌≡◌, refl, List, [], ◌∷◌, ◌++◌, All, map, ok, err, arith}
use matter_cli.Prelude.Int.{negsuc}
use matter_cli.Tlv.Types.{
  Tag, end_of_input, anonymous_tag, context_tag, fully_qualified6, encode_tag_as, tag_code,
}
use matter_cli.Tlv.Writer.{
  Writer, new_writer, write_element, signed_type, string_element_type, put_signed_int, put_string,
  put_utf8_string, start_structure, end_container,
}
use matter_cli.Tlv.Reader.{Reader, new_reader, next}
use matter_cli.Tlv.RoundTrip.{
  Item, signed_int, utf8_string, open_structure, close, put, tag_of, element_of, IsWritable,
  next-put,
}
use matter_cli.Tlv.Document.{put_all, read_all, read_all-put_all}

abbrev vendor_tag : Tag
vendor_tag = record {
  type_ = fully_qualified6;
  vendor_id = 0xfff1;
  profile_num = 0xdeed;
  tag_num = 1;
}

-- { 1: -300, 2: "Hi" }
abbrev document : List Item
document =
    open_structure anonymous_tag
    ∷ signed_int (context_tag 1) (negsuc 299)
    ∷ utf8_string (context_tag 2) (72 ∷ 105 ∷ [])
    ∷ close
    ∷ []

abbrev written : Writer
written = record {
  buf = 0x15 ∷ 0x21 ∷ 1 ∷ 0xd4 ∷ 0xfe ∷ 0x2c ∷ 2 ∷ 2 ∷ 72 ∷ 105 ∷ 0x18 ∷ [];
  containers = [];
}

document-written : put_all document new_writer ≡ (ok tt, written)
unfolding put_all put write_element signed_type string_element_type put_signed_int put_string
    put_utf8_string start_structure end_container encode_tag_as tag_code
document-written = refl

number-IsWritable : IsWritable (signed_int (context_tag 1) (negsuc 299))
unfolding tag_of
number-IsWritable = ((refl, refl, omega arith), refl)

document-IsWritable : All IsWritable document
unfolding tag_of
document-IsWritable = (
  ((refl, refl, refl), tt),
  (number-IsWritable, (((refl, refl, omega arith), omega arith), (((refl, refl, refl), tt), tt))),
)

read_all-put_all_example :
    (last : Reader) × (read_all 4 (new_reader written.buf) ≡ (ok (map element_of document), last))
    × (last.containers ≡ [])
    × ((next last).0 ≡ err end_of_input)
read_all-put_all_example = read_all-put_all document written document-IsWritable document-written

next-put_example :
    (w' : Writer) × (bytes : List ℕ) × (put (signed_int (context_tag 1) (negsuc 299)) new_writer
      ≡ (ok tt, w'))
    × (w'.buf ≡ [] ++ bytes)
    × (next (record (new_reader []) { input = bytes ++ (24 ∷ []) }) ≡ (
      ok tt,
      record (new_reader []) {
        input = 24 ∷ [];
        containers = w'.containers;
        elem_ = element_of (signed_int (context_tag 1) (negsuc 299));
      },
    ))
next-put_example =
    next-put (signed_int (context_tag 1) (negsuc 299)) new_writer (new_reader []) (24 ∷ [])
      number-IsWritable tt refl refl
