-- ===== src/Interaction/Reassemble.antt =====
-- internal/interaction/reassemble.go: the fragments of a chunked list, put together again.
pub mod Chunks
use matter_cli.Prelude.{
  ℕ, ◌-◌, Bool, true, false, if◌then◌else◌, leb, ◌==◌, ◌&&◌, Option, none, some, List, [], ◌∷◌,
  ◌++◌, length, get_or, take, drop,
}
use matter_cli.Interaction.Path.{AttributePath, is_null}
use matter_cli.Interaction.Reports.{AttributeData, AttributeReport}
use matter_cli.Tlv.Types.{type_array, type_end_of_container}

pub record AttrGroupKey : Type 0 where
  pub endpoint : ℕ
  pub cluster : ℕ
  pub attribute : ℕ

unfoldable pub same_key : AttrGroupKey → AttrGroupKey → Bool
same_key k j = k.endpoint == j.endpoint && k.cluster == j.cluster && k.attribute == j.attribute

unfoldable pub path_key : AttributePath → Option AttrGroupKey
path_key p = elim p.endpoint_id [
  | none ↦ none
  | some e ↦ elim p.cluster_id [
    | none ↦ none
    | some c ↦ elim p.attribute_id [
      | none ↦ none
      | some a ↦ some (record { endpoint = e; cluster = c; attribute = a })
    ]
  ]
]

-- `attributeReportKey`, with the data that the report then has.
unfoldable pub keyed : Option AttrGroupKey → AttributeData → Option (AttrGroupKey × AttributeData)
keyed none d = none
keyed (some key) d = some (key, d)

unfoldable pub data_key : Option AttributeData → Option (AttrGroupKey × AttributeData)
data_key none = none
data_key (some d) = keyed (path_key d.path) d

-- `attributeReportKey`, with the data that the report then has.
unfoldable pub attribute_report_key : AttributeReport → Option (AttrGroupKey × AttributeData)
attribute_report_key r = data_key r.data_

unfoldable pub is_list_element : List ℕ → Bool
is_list_element raw = leb 2 (length raw) && get_or raw 0 0 == type_array

-- The items one after the other, as they are written to the buffer.
unfoldable pub concat : List (List ℕ) → List ℕ
concat [] = []
concat (item ∷ items) = item ++ concat items

unfoldable pub splice_list_items : List ℕ → List (List ℕ) → Option (List ℕ)
splice_list_items base items =
    let inner = drop 1 (take (length base - 1) base) in
    if is_list_element base
    then some ((get_or base 0 0 ∷ inner) ++ concat items ++ type_end_of_container ∷ [])
    else none

-- The group that is open: its key, its first report with that report's data, whether that data is
-- an array, and the fragments appended to it. Go keeps these in variables beside `haveOpen`.
pub record Group : Type 0 where
  pub key : AttrGroupKey
  pub base : AttributeReport
  pub base_data : AttributeData
  pub is_array : Bool
  pub appends : List (List ℕ)

unfoldable pub finalize_list_group : Group → AttributeReport
finalize_list_group g = elim g.appends [
  | [] ↦ g.base
  | _ ∷ _ ↦ elim (splice_list_items g.base_data.data_ g.appends) [
    | none ↦ g.base
    | some spliced ↦ record g.base { data_ = some (record g.base_data { data_ = spliced }) }
  ]
]

-- `flush`, on the reports merged so far.
unfoldable pub flush : List AttributeReport → Option Group → List AttributeReport
flush merged none = merged
flush merged (some g) = merged ++ finalize_list_group g ∷ []

-- Does the fragment continue the open group?
unfoldable pub continues : Option Group → AttrGroupKey → Bool
continues none key = false
continues (some g) key = g.is_array && same_key key g.key

unfoldable pub append_fragment : Option Group → List ℕ → Option Group
append_fragment none item = none
append_fragment (some g) item = some (record g { appends = g.appends ++ item ∷ [] })

-- What the loop keeps: the reports merged so far, and the group that is open.
abbrev pub Merge : Type 0
Merge = List AttributeReport × Option Group

unfoldable pub open_group : AttrGroupKey → AttributeReport → AttributeData → Group
open_group key r d = record {
  key = key;
  base = r;
  base_data = d;
  is_array = is_list_element d.data_;
  appends = [];
}

-- One pass of the loop.
unfoldable pub merge_report : Merge → AttributeReport → Merge
merge_report (merged, opened) r = elim (attribute_report_key r) [
  | none ↦ (flush merged opened ++ r ∷ [], none)
  | some (key, d) ↦
      if is_null d.path.list_index
      then (if continues opened key
          then (merged, append_fragment opened d.data_)
          else (flush merged opened ++ r ∷ [], none))
      else (flush merged opened, some (open_group key r d))
]

unfoldable pub merge_reports : Merge → List AttributeReport → List AttributeReport
merge_reports state [] = flush state.0 state.1
merge_reports state (r ∷ rs) = merge_reports (merge_report state r) rs

unfoldable pub reassemble_list_chunks : List AttributeReport → List AttributeReport
reassemble_list_chunks reports = merge_reports ([], none) reports
