-- ===== src/Tlv/Document.antt =====
-- A whole run of internal/tlv's writer, and a reader's run over its bytes.
use matter_cli.Prelude.{
  ℕ, zero, suc, ◌<◌, ◌≡◌, refl, sym, ap, ◌∙◌, false, List, [], ◌∷◌, ◌++◌, length, All, map,
  append_assoc, append-nil, Result, ok, err, arith,
}
use matter_cli.Tlv.Types.{Element, TlvError, end_of_input}
use matter_cli.Tlv.Writer.{Writer, Write, new_writer, pop, ◌>>◌, end_container}
use matter_cli.Tlv.Reader.{Reader, new_reader, next_input, next}
use matter_cli.Tlv.Elements.{Wrote, next_live}
use matter_cli.Tlv.RoundTrip.{
  Item, signed_int, unsigned_int, bool, float_single, float_double, utf8_string, octet_string,
  nothing, open_structure, open_array, open_list, close, put, element_of, IsWritable, IsOpenFor,
  PutResult, put_result,
}

-- Calls of the writer, up to the first error.
unfoldable pub put_all : List Item → Write
put_all [] w = (ok tt, w)
put_all (i ∷ is) w = (put i >> put_all is) w

abbrev collect :
    Result TlvError (Unit {0}) × Reader
    → Result TlvError (List Element) × Reader
    → Result TlvError (List Element) × Reader
collect (ok _, r) (ok elements, last) = (ok (r.elem_ ∷ elements), last)
collect (ok _, r) (err e, last) = (err e, last)
collect (err e, r) _ = (err e, r)

-- `n` calls of `Next`, up to the first error, with the element after each.
unfoldable pub read_all : ℕ → Reader → Result TlvError (List Element) × Reader
read_all zero r = (ok [], r)
read_all (suc n) r = collect (next r) (read_all n (next r).1)

record ReadBack (elements : List Element) (w w' : Writer) : Type 0 where
  pub bytes : List ℕ
  pub appended : w'.buf ≡ w.buf ++ bytes
  pub read_back :
      (r : Reader) (rest : List ℕ)
      → r.done ≡ false
      → r.containers ≡ w.containers
      → r.input ≡ bytes ++ rest
      → (last : Reader) × (read_all (length elements) r ≡ (ok elements, last))
        × (last.done ≡ false)
        × (last.containers ≡ w'.containers)
        × (last.input ≡ rest)

ok≢err :
    {A B : Type 0} {e : TlvError} {a : A} {x y : B}
    → ¬ (◌≡◌ {A = Result TlvError A × B} (err e, x) (ok a, y))
ok≢err h = ground arith

open_for : (i : Item) (w w' : Writer) (k : Write) → (put i >> k) w ≡ (ok tt, w') → IsOpenFor i w
unfolding put end_container
open_for close w w' k h = go w.containers refl
  where
    go : (cs : List ℕ) → w.containers ≡ cs → 0 < length w.containers
    go [] e = absurd (ok≢err (sym (ap (λ c. ((λ (_ : Writer). pop c w) >> k) w) e) ∙ h))
    go (c ∷ cs) e = ground arith
open_for (signed_int t v) w w' k h = tt
open_for (unsigned_int t v) w w' k h = tt
open_for (bool t v) w w' k h = tt
open_for (float_single t v) w w' k h = tt
open_for (float_double t v) w w' k h = tt
open_for (utf8_string t v) w w' k h = tt
open_for (octet_string t v) w w' k h = tt
open_for (nothing t) w w' k h = tt
open_for (open_structure t) w w' k h = tt
open_for (open_array t) w w' k h = tt
open_for (open_list t) w w' k h = tt

read_all-step :
    (n : ℕ) (r r1 last : Reader) (es : List Element)
    → next r ≡ (ok tt, r1)
    → read_all n r1 ≡ (ok es, last)
    → read_all (suc n) r ≡ (ok (r1.elem_ ∷ es), last)
unfolding read_all
read_all-step n r r1 last es a b =
    ap (λ q. collect q (read_all n q.1)) a ∙ ap (collect (ok tt, r1)) b

ReadBack-cons :
    (el : Element) (els : List Element) (w w1 w' : Writer)
    → Wrote el w w1
    → ReadBack els w1 w'
    → ReadBack (el ∷ els) w w'
ReadBack-cons el els w w1 w' a b = record {
  bytes = a.bytes ++ b.bytes;
  appended = b.appended ∙ ap (λ q. q ++ b.bytes) a.appended ∙ append_assoc w.buf a.bytes b.bytes;
  read_back = λ r rest live same at_input.
      let r1 : Reader = record r {
        input = b.bytes ++ rest;
        containers = w1.containers;
        elem_ = el;
      } in
      let (last, reads, still, open_, left) = b.read_back r1 rest live refl refl in
      (
        last,
        read_all-step (length els) r r1 last els
            (a.read_back r (b.bytes ++ rest) live same
              (at_input ∙ append_assoc a.bytes b.bytes rest))
            reads,
        still,
        open_,
        left,
      );
}

ReadBack-items :
    (is : List Item) (w w' : Writer)
    → All IsWritable is
    → put_all is w ≡ (ok tt, w')
    → ReadBack (map element_of is) w w'
unfolding put_all read_all PutResult
ReadBack-items [] w w' h run = record {
  bytes = [];
  appended = ap (λ p. (p.1).buf) (sym run) ∙ sym (append-nil w.buf);
  read_back =
      λ r rest live same at_input. (r, refl, live, same ∙ ap (λ p. (p.1).containers) run, at_input);
}
ReadBack-items (i ∷ is) w w' (c, cs) run =
    let (w1, e, wrote) = put_result i w c (open_for i w w' (put_all is) run) in
    let later : put_all is w1 ≡ (ok tt, w') =
      sym (ap (λ q. ((λ (_ : Writer). q) >> put_all is) w) e) ∙ run in
    ReadBack-cons (element_of i) (map element_of is) w w1 w' wrote
      (ReadBack-items is w1 w' cs later)

-- After any sequence of calls with canonical tags and values of their Go types that a new writer
-- accepted, as many calls of `Next` on a new reader of the buffer succeed and give exactly the
-- elements that were put, in order, and the call after them reports the end of the input.
pub read_all-put_all :
    (is : List Item) (w : Writer)
    → All IsWritable is
    → put_all is new_writer ≡ (ok tt, w)
    → (last : Reader) × (read_all (length (map element_of is)) (new_reader w.buf)
        ≡ (ok (map element_of is), last))
      × (last.containers ≡ w.containers)
      × ((next last).0 ≡ err end_of_input)
unfolding next_input
read_all-put_all is w h run =
    let whole = ReadBack-items is new_writer w h run in
    let (last, reads, live, same, at_end) =
      whole.read_back (new_reader w.buf) [] refl refl
        (whole.appended ∙ sym (append-nil whole.bytes)) in
    (
      last,
      reads,
      same,
      ap (λ p. p.0) (next_live last live) ∙ ap (λ q. (next_input q last).0) at_end,
    )
