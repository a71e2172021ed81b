-- ===== src/Tlv/Elements.antt =====
-- Elements of internal/tlv: what the writer puts for one, the reader reads.
use matter_cli.Prelude.{
  ℕ, ◌<◌, ◌≡◌, refl, ap, ◌∙◌, true, false, ◌||◌, ◌==◌, List, [], ◌∷◌, ◌++◌, length, append_assoc,
  append-nil, Result, ok, err, arith, bit_or,
}
use matter_cli.Tlv.Types.{
  Tag, Element, Value, absent, TlvError, tag_code, encode_tag_as, tag_size, decode_tag,
  type_structure, type_array, type_list, type_end_of_container, anonymous_tag,
}
use matter_cli.Tlv.Tags.{IsCanonical, Canonical-IsKnown, control_byte, TagBytes, decode-encode_tag}
use matter_cli.Tlv.Writer.{Writer, Write, write, push, pop, ◌>>◌, write_element, end_container}
use matter_cli.Tlv.Reader.{Reader, next_body, next_input, next}
use matter_cli.Tlv.Values.{ReadsAs}

-- What a successful call has appended, and what a reader in step with the writer makes of it.
pub record Wrote (el : Element) (w w' : Writer) : Type 0 where
  pub bytes : List ℕ
  pub appended : w'.buf ≡ w.buf ++ bytes
  pub read_back :
      (r : Reader) (rest : List ℕ)
      → r.done ≡ false
      → r.containers ≡ w.containers
      → r.input ≡ bytes ++ rest
      → next r ≡ (ok tt, record r { input = rest; containers = w'.containers; elem_ = el })

pub next_live : (r : Reader) → r.done ≡ false → next r ≡ next_input r.input r
unfolding next
next_live r live = ground arith

header_bytes :
    (t : Tag) (e : ℕ) (tag_bytes body : List ℕ) (r : Reader)
    → IsCanonical t
    → TagBytes t tag_bytes
    → e < 32
    → next_input (bit_or (tag_code t.type_) e ∷ (tag_bytes ++ body)) r ≡ next_body e t body r
unfolding next_input
header_bytes t e tag_bytes body r c tb h =
    let (form, kind) = control_byte t.type_ e (Canonical-IsKnown t.type_ t c) h in
    rw (form, tb.decoded body, kind, next_input)

-- The control byte and the tag bring the reader to the body of the element.
pub next_header :
    (t : Tag) (e : ℕ) (tag_bytes body : List ℕ) (r : Reader)
    → IsCanonical t
    → TagBytes t tag_bytes
    → e < 32
    → r.done ≡ false
    → r.input ≡ bit_or (tag_code t.type_) e ∷ (tag_bytes ++ body)
    → next r ≡ next_body e t body r
next_header t e tag_bytes body r c tb h live at_input =
    next_live r live ∙ ap (λ q. next_input q r) at_input ∙ header_bytes t e tag_bytes body r c tb h

-- A payload of a value, behind the header.
pub next_value :
    (t : Tag) (e : ℕ) (payload rest : List ℕ) (v : Value) (r : Reader)
    → ReadsAs e payload v
    → (e == type_end_of_container) ≡ false
    → ((e == type_structure) || (e == type_array) || (e == type_list)) ≡ false
    → next_body e t (payload ++ rest) r
      ≡ (ok tt, record r { input = rest; elem_ = record { tag = t; type_ = e; value = v } })
unfolding next_body
next_value t e payload rest v r reads a b = rw (a, b, reads rest, next_body)

opened_body :
    (t : Tag) (e : ℕ) (rest : List ℕ) (r : Reader)
    → (e == type_end_of_container) ≡ false
    → ((e == type_structure) || (e == type_array) || (e == type_list)) ≡ true
    → next_body e t rest r ≡ (
      ok tt,
      record r {
        input = rest;
        containers = e ∷ r.containers;
        elem_ = record { tag = t; type_ = e; value = absent };
      },
    )
unfolding next_body
opened_body t e rest r a b = rw (a, b, next_body)

-- `writeElement` on a canonical tag.
write_element-ok :
    (t : Tag) (e : ℕ) (tag_bytes : List ℕ) (w : Writer)
    → TagBytes t tag_bytes
    → write_element t e w
      ≡ (ok tt, record w { buf = (w.buf ++ (bit_or (tag_code t.type_) e ∷ [])) ++ tag_bytes })
unfolding write_element
write_element-ok t e tag_bytes w tb = rw (tb.encoded, write_element)

closed_body :
    (t : Tag) (rest outer : List ℕ) (top : ℕ) (r : Reader)
    → r.containers ≡ top ∷ outer
    → next_body type_end_of_container t rest r ≡ (
      ok tt,
      record r {
        input = rest;
        containers = outer;
        elem_ = record { tag = t; type_ = type_end_of_container; value = absent };
      },
    )
unfolding next_body
closed_body t rest outer top r e = rw (e, next_body)

after : Reader → List ℕ → Element → List ℕ → Result TlvError (Unit {0}) × Reader
after r rest el cs = (ok tt, record r { input = rest; containers = cs; elem_ = el })

-- The bytes of an element with a payload.
pub Wrote-value :
    (t : Tag) (e : ℕ) (payload : List ℕ) (v : Value) (w : Writer)
    → IsCanonical t
    → ReadsAs e payload v
    → e < 0x15
    → (w' : Writer) × ((write_element t e >> write payload) w ≡ (ok tt, w'))
      × Wrote (record { tag = t; type_ = e; value = v }) w w'
unfolding after
Wrote-value t e payload v w c reads h =
    let (tag_bytes, tb) = decode-encode_tag t c in
    let cb : ℕ = bit_or (tag_code t.type_) e in
    let not_end : (e == type_end_of_container) ≡ false = ground arith in
    let not_open : ((e == type_structure) || (e == type_array) || (e == type_list)) ≡ false =
      ground arith in
    (
      record w { buf = ((w.buf ++ (cb ∷ [])) ++ tag_bytes) ++ payload },
      ap (λ q. ((λ (_ : Writer). q) >> write payload) w) (write_element-ok t e tag_bytes w tb),
      record {
        bytes = cb ∷ (tag_bytes ++ payload);
        appended = simp append_assoc;
        read_back = λ r rest live same at_input.
            next_header t e tag_bytes (payload ++ rest) r c tb (omega arith) live
              (at_input ∙ ap (λ q. cb ∷ q) (append_assoc tag_bytes payload rest))
            ∙ next_value t e payload rest v r reads not_end not_open
            ∙ ap (after r rest (record { tag = t; type_ = e; value = v })) same;
      },
    )

-- The bytes of a container's start.
pub Wrote-open :
    (t : Tag) (e : ℕ) (w : Writer)
    → IsCanonical t
    → e < 32
    → (e == type_end_of_container) ≡ false
    → ((e == type_structure) || (e == type_array) || (e == type_list)) ≡ true
    → (w' : Writer) × ((write_element t e >> push e) w ≡ (ok tt, w'))
      × Wrote (record { tag = t; type_ = e; value = absent }) w w'
unfolding after
Wrote-open t e w c h a b =
    let (tag_bytes, tb) = decode-encode_tag t c in
    let cb : ℕ = bit_or (tag_code t.type_) e in
    (
      record w { buf = (w.buf ++ (cb ∷ [])) ++ tag_bytes; containers = e ∷ w.containers },
      ap (λ q. ((λ (_ : Writer). q) >> push e) w) (write_element-ok t e tag_bytes w tb),
      record {
        bytes = cb ∷ tag_bytes;
        appended = append_assoc w.buf (cb ∷ []) tag_bytes;
        read_back = λ r rest live same at_input.
            next_header t e tag_bytes rest r c tb h live at_input
            ∙ opened_body t e rest r a b
            ∙ ap (λ cs. after r rest (record { tag = t; type_ = e; value = absent }) (e ∷ cs)) same;
      },
    )

pub write-write :
    (m : Write) (xs ys : List ℕ) (w : Writer)
    → (m >> write xs >> write ys) w ≡ (m >> write (xs ++ ys)) w
write-write m xs ys w = go (m w)
  where
    go :
        (q : Result TlvError (Unit {0}) × Writer)
        → ((λ (_ : Writer). q) >> write xs >> write ys) w
          ≡ ((λ (_ : Writer). q) >> write (xs ++ ys)) w
    go (ok _, w') = ap (λ b. (ok tt, record w' { buf = b })) (append_assoc w'.buf xs ys)
    go (err e, w') = refl

pub write-nil : (m : Write) (w : Writer) → (m >> write []) w ≡ m w
write-nil m w = go (m w)
  where
    go : (q : Result TlvError (Unit {0}) × Writer) → ((λ (_ : Writer). q) >> write []) w ≡ q
    go (ok tt, w') = ap (λ b. (ok tt, record w' { buf = b })) (append-nil w'.buf)
    go (err e, w') = refl

anonymous_bytes : TagBytes anonymous_tag []
unfolding decode_tag encode_tag_as tag_size
anonymous_bytes = record { encoded = refl; size = refl; decoded = λ rest. refl }

-- The bytes of a container's end: there has to be one open.
pub Wrote-close :
    (w : Writer)
    → 0 < length w.containers
    → (w' : Writer) × (end_container w ≡ (ok tt, w'))
      × Wrote (record { tag = anonymous_tag; type_ = type_end_of_container; value = absent }) w w'
unfolding end_container tag_code
Wrote-close w h = go w.containers refl h
  where
    go :
        (cs : List ℕ)
        → w.containers ≡ cs
        → 0 < length cs
        → (w' : Writer) × (pop w.containers w ≡ (ok tt, w'))
          × Wrote
              (record { tag = anonymous_tag; type_ = type_end_of_container; value = absent })
              w
              w'
    go [] e h = absurd (omega arith)
    go (top ∷ outer) e h = (
      record { buf = w.buf ++ (type_end_of_container ∷ []); containers = outer },
      ap (λ cs. pop cs w) e,
      record {
        bytes = type_end_of_container ∷ [];
        appended = refl;
        read_back = λ r rest live same at_input.
            next_header anonymous_tag type_end_of_container [] rest r (refl, refl, refl)
              anonymous_bytes (omega arith) live at_input
            ∙ closed_body anonymous_tag rest outer top r (same ∙ e);
      },
    )
