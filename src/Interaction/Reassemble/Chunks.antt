-- ===== src/Interaction/Reassemble/Chunks.antt =====
-- internal/interaction/reassemble.go: what a device may send for a list of reports, and what the
-- merge makes of it.
use matter_cli.Prelude.{
  ℕ, suc, ◌-◌, true, false, Option, none, some, List, [], ◌∷◌, ◌++◌, ◌≡◌, refl, sym, ap, ◌∙◌,
  append-nil, append_assoc, inl, inr, Option-cases, length, take-length_append, length-append,
  arith,
}
use matter_cli.Interaction.Path.{is_null}
use matter_cli.Interaction.Reports.{AttributeData, AttributeReport}
use matter_cli.Interaction.Reassemble.{
  AttrGroupKey, Group, same_key, attribute_report_key, keyed, data_key, path_key, is_list_element,
  concat, splice_list_items, finalize_list_group, flush, continues, append_fragment, open_group,
  merge_report, merge_reports, reassemble_list_chunks,
}
use matter_cli.Tlv.Types.{type_array, type_end_of_container}

-- The bytes of an array with an anonymous tag, whose items are encoded by `inner`.
abbrev pub array_of : List ℕ → List ℕ
array_of inner = type_array ∷ inner ++ type_end_of_container ∷ []

-- A report with no list index null: the value of an attribute, or a status.
abbrev pub IsWhole : AttributeReport → Type 0
IsWhole r =
    (key : AttrGroupKey) (d : AttributeData)
    → attribute_report_key r ≡ some (key, d)
    → is_null d.path.list_index ≡ false

-- One report for each item that is appended to the list with that key.
pub data Appends (key : AttrGroupKey) : List (List ℕ) → List AttributeReport → Type 0 where
  done : Appends key [] []
  append :
      {items : List (List ℕ)} {reports : List AttributeReport} (r : AttributeReport)
      (d : AttributeData)
      → attribute_report_key r ≡ some (key, d)
      → is_null d.path.list_index ≡ true
      → Appends key items reports
      → Appends key (d.data_ ∷ items) (r ∷ reports)

-- A report as it is sent: whole, or as a marker with the first items and a fragment for each
-- further item.
pub data Fragments : AttributeReport → List AttributeReport → Type 0 where
  whole : (r : AttributeReport) → IsWhole r → Fragments r (r ∷ [])
  chunked :
      {items : List (List ℕ)} {reports : List AttributeReport} (r : AttributeReport)
      (key : AttrGroupKey) (d : AttributeData) (inner : List ℕ)
      → attribute_report_key r ≡ some (key, d)
      → is_null d.path.list_index ≡ false
      → d.data_ ≡ array_of inner
      → Appends key items reports
      → Fragments
          (record r { data_ = some (record d { data_ = array_of (inner ++ concat items) }) })
          (r ∷ reports)

pub data Sent : List AttributeReport → List AttributeReport → Type 0 where
  nothing : Sent [] []
  next :
      {r : AttributeReport} {fragments values reports : List AttributeReport}
      → Fragments r fragments
      → Sent values reports
      → Sent (r ∷ values) (fragments ++ reports)

keyed-data :
    (o : Option AttrGroupKey) (d : AttributeData) {key : AttrGroupKey} {e : AttributeData}
    → keyed o d ≡ some (key, e)
    → d ≡ e
unfolding keyed
keyed-data none d h = cc
keyed-data (some k) d h = cc

data_key-data :
    (o : Option AttributeData) {key : AttrGroupKey} {d : AttributeData}
    → data_key o ≡ some (key, d)
    → o ≡ some d
unfolding data_key
data_key-data none h = cc
data_key-data (some e) h = ap some (keyed-data (path_key e.path) e h)

key-data :
    (r : AttributeReport) {key : AttrGroupKey} {d : AttributeData}
    → attribute_report_key r ≡ some (key, d)
    → r.data_ ≡ some d
unfolding attribute_report_key
key-data r h = data_key-data r.data_ h

same_key_refl : (key : AttrGroupKey) → same_key key key ≡ true
unfolding same_key
same_key_refl key = ground arith

merge_report-append :
    (merged : List AttributeReport) (g : Group) (r : AttributeReport) (d : AttributeData)
    → g.is_array ≡ true
    → attribute_report_key r ≡ some (g.key, d)
    → is_null d.path.list_index ≡ true
    → merge_report (merged, some g) r
      ≡ (merged, some (record g { appends = g.appends ++ d.data_ ∷ [] }))
unfolding merge_report continues append_fragment
merge_report-append merged g r d h e n =
    rw (merge_report, e, n, append_fragment, continues, h, same_key_refl g.key) refl

merge_report-whole :
    (merged : List AttributeReport) (opened : Option Group) (r : AttributeReport)
    {key : AttrGroupKey} {d : AttributeData}
    → attribute_report_key r ≡ some (key, d)
    → is_null d.path.list_index ≡ false
    → merge_report (merged, opened) r ≡ (flush merged opened, some (open_group key r d))
unfolding merge_report
merge_report-whole merged opened r e n = rw (merge_report, e, n) refl

merge_report-keyless :
    (merged : List AttributeReport) (opened : Option Group) (r : AttributeReport)
    → attribute_report_key r ≡ none
    → merge_report (merged, opened) r ≡ (flush merged opened ++ r ∷ [], none)
unfolding merge_report
merge_report-keyless merged opened r e = rw (merge_report, e) refl

-- The items of the fragments are gathered in order.
gather :
    {key : AttrGroupKey} {items : List (List ℕ)} {reports : List AttributeReport}
    (merged : List AttributeReport) (g : Group) (rest : List AttributeReport)
    → g.key ≡ key
    → g.is_array ≡ true
    → Appends key items reports
    → merge_reports (merged, some g) (reports ++ rest)
      ≡ merge_reports (merged, some (record g { appends = g.appends ++ items })) rest
unfolding merge_reports
gather merged g rest k h done = rw (append-nil g.appends) refl
gather {key} merged g rest k h (append {items} r d e n more) =
    rw (merge_reports, merge_report-append merged g r d h (rw k e) n)
      (gather merged (record g { appends = g.appends ++ d.data_ ∷ [] }) rest k h more
        ∙ rw (append_assoc g.appends (d.data_ ∷ []) items) refl)

length-array_of : (inner : List ℕ) → length (array_of inner) - 1 ≡ suc (length inner)
length-array_of inner = omega (arith, length-append inner (type_end_of_container ∷ []))

is_list_element-array_of : (inner : List ℕ) → is_list_element (array_of inner) ≡ true
unfolding is_list_element
is_list_element-array_of inner =
    rw (length-append inner (type_end_of_container ∷ [])) (ground arith)

splice_list_items-array_of :
    (inner : List ℕ) (items : List (List ℕ))
    → splice_list_items (array_of inner) items ≡ some (array_of (inner ++ concat items))
unfolding splice_list_items
splice_list_items-array_of inner items =
    rw
      (
        length-array_of inner,
        take-length_append (length inner) inner (type_end_of_container ∷ []) refl,
        is_list_element-array_of inner,
      )
      refl

finalize_list_group-gathered :
    (g : Group) (inner : List ℕ) (items : List (List ℕ))
    → g.base.data_ ≡ some g.base_data
    → g.base_data.data_ ≡ array_of inner
    → finalize_list_group (record g { appends = items }) ≡ record g.base {
      data_ = some (record g.base_data { data_ = array_of (inner ++ concat items) });
    }
unfolding finalize_list_group concat
finalize_list_group-gathered g inner [] b e =
    ap (λ o. record g.base { data_ = o })
      (b
        ∙ ap (λ raw. some (record g.base_data { data_ = raw }))
            (e ∙ ap array_of (sym (append-nil inner))))
finalize_list_group-gathered g inner (item ∷ items) b e =
    rw (finalize_list_group, e, splice_list_items-array_of inner (item ∷ items)) refl

merge_reports-Sent :
    {values reports : List AttributeReport} (merged : List AttributeReport) (opened : Option Group)
    → Sent values reports
    → merge_reports (merged, opened) reports ≡ flush merged opened ++ values
unfolding merge_reports open_group flush finalize_list_group
merge_reports-Sent merged opened nothing = sym (append-nil (flush merged opened))
merge_reports-Sent merged opened (next {values} (whole r w) more) =
    elim (Option-cases (attribute_report_key r)) [
      | inl e ↦
          rw (merge_reports, merge_report-keyless merged opened r e)
            (merge_reports-Sent (flush merged opened ++ r ∷ []) none more
              ∙ rw (flush, append_assoc (flush merged opened) (r ∷ []) values) refl)
      | inr ((key, d), e) ↦
          rw (merge_reports, merge_report-whole merged opened r e (w key d e))
            (merge_reports-Sent (flush merged opened) (some (open_group key r d)) more
              ∙ rw
                  (append_assoc (flush merged opened)
                    (finalize_list_group (open_group key r d) ∷ []) values)
                  refl)
    ]
merge_reports-Sent merged opened
      (next {values} {reports} (chunked {items} r key d inner e n raw fragments) more) =
    rw (merge_reports, merge_report-whole merged opened r e n)
      (gather (flush merged opened) (open_group key r d) reports refl
          (rw raw (is_list_element-array_of inner)) fragments
        ∙ merge_reports-Sent (flush merged opened)
            (some (record (open_group key r d) { appends = items })) more
        ∙ ap (λ v. flush merged opened ++ v ∷ [] ++ values)
            (finalize_list_group-gathered (open_group key r d) inner items (key-data r e) raw)
        ∙ append_assoc (flush merged opened) (_ ∷ []) values)

-- However the reports are sent, whole or with list values cut into fragments, the merge gives back
-- the reports, each list with all its items in order.
pub reassemble_list_chunks-Sent :
    {values reports : List AttributeReport}
    → Sent values reports
    → reassemble_list_chunks reports ≡ values
unfolding reassemble_list_chunks flush
reassemble_list_chunks-Sent sent = merge_reports-Sent [] none sent
