-- ===== src/Commissioning/Network/Dataset.antt =====
-- internal/commissioning/network.go: datasets that are sequences of whole entries.
use matter_cli.Prelude.{
  ℕ, zero, suc, ◌≤◌, ◌≡◌, ◌≢◌, refl, sym, ap, ◌∙◌, true, if◌then◌else◌, ltb, ◌==◌, List, [], ◌∷◌,
  ◌++◌, length, length-append, take-length_append, drop-length_append, Result, ok, err, Bool-cases,
  inl, inr, arith, ge→ltb, ==_iff,
}
use matter_cli.Commissioning.Network.{
  DatasetError, dataset_too_short, missing_fields, unexpected_length, no_extended_pan_id,
  thread_tlv_channel, thread_tlv_extended_pan_id, min_thread_dataset_len, required_thread_tlv_types,
  present_types, is_present, missing_types, report_missing, validate_thread_dataset, extract_loop,
  extract_extended_pan_id,
}

-- A type and a value.
abbrev pub Entry : Type 0
Entry = ℕ × List ℕ

unfoldable pub encode : List Entry → List ℕ
encode [] = []
encode ((t, value) ∷ entries) = t ∷ length value ∷ value ++ encode entries

unfoldable pub types : List Entry → List ℕ
types [] = []
types ((t, value) ∷ entries) = t ∷ types entries

-- The value of the first entry that is an Extended PAN ID.
unfoldable pub pan_id_of : List Entry → Result DatasetError (List ℕ)
pan_id_of [] = err no_extended_pan_id
pan_id_of ((t, value) ∷ entries) =
    let later = pan_id_of entries in
    if t == thread_tlv_extended_pan_id
    then (if length value == 8 then ok value else err (unexpected_length (length value)))
    else later

present_types-encode :
    (fuel : ℕ) (entries : List Entry)
    → length (encode entries) ≤ fuel
    → present_types fuel (encode entries) ≡ types entries
unfolding present_types encode types
present_types-encode zero [] h = refl
present_types-encode (suc fuel) [] h = refl
present_types-encode zero ((t, value) ∷ entries) h = absurd (omega arith)
present_types-encode (suc fuel) ((t, value) ∷ entries) h =
    rw (drop-length_append (length value) value (encode entries) refl) (
      ap (λ xs. t ∷ xs)
        (present_types-encode fuel entries (omega (arith, length-append value (encode entries)))))

extract_loop-encode :
    (fuel : ℕ) (entries : List Entry)
    → length (encode entries) ≤ fuel
    → extract_loop fuel (encode entries) ≡ pan_id_of entries
unfolding extract_loop encode pan_id_of
extract_loop-encode zero [] h = refl
extract_loop-encode (suc fuel) [] h = refl
extract_loop-encode zero ((t, value) ∷ entries) h = absurd (omega arith)
extract_loop-encode (suc fuel) ((t, value) ∷ entries) h =
    let more = length-append value (encode entries) in
    rw
      (
        ge→ltb (length (value ++ encode entries)) (length value) (omega (arith, more)),
        drop-length_append (length value) value (encode entries) refl,
        extract_loop-encode fuel entries (omega (arith, more)),
      )
      (elim (Bool-cases (length value == 8)) [
        | inl y ↦
            rw (y, take-length_append 8 value (encode entries) ((==_iff (length value) 8).0 y)) refl
        | inr n ↦ rw n refl
      ])

ok_is_no_error :
    {value : List ℕ} → ◌≢◌ {A = Result DatasetError (List ℕ)} (ok value) (err no_extended_pan_id)
ok_is_no_error e = cc

other_error :
    {n : ℕ}
    → ◌≢◌ {A = Result DatasetError (List ℕ)} (err (unexpected_length n)) (err no_extended_pan_id)
other_error e = cc

reported :
    {missing : List ℕ}
    → ◌≢◌ {A = Result DatasetError (Unit {0})} (err (missing_fields missing)) (ok tt)
reported e = cc

too_short : {n : ℕ} → ◌≢◌ {A = Result DatasetError (Unit {0})} (err (dataset_too_short n)) (ok tt)
too_short e = cc

pan_id_of-present :
    (entries : List Entry)
    → is_present thread_tlv_extended_pan_id (types entries) ≡ true
    → pan_id_of entries ≢ err no_extended_pan_id
unfolding is_present types pan_id_of
pan_id_of-present [] h e = cc
pan_id_of-present ((t, value) ∷ entries) h e = elim (Bool-cases (t == thread_tlv_extended_pan_id)) [
  | inr n ↦ pan_id_of-present entries (rw (is_present, n) at h) (rw (pan_id_of, n) at e)
  | inl y ↦ elim (Bool-cases (length value == 8)) [
    | inl z ↦ ok_is_no_error (rw (pan_id_of, y, z) at e)
    | inr z ↦ other_error (rw (pan_id_of, y, z) at e)
  ]
]

none_missing :
    (present : List ℕ)
    → report_missing (missing_types required_thread_tlv_types present) ≡ ok tt
    → is_present thread_tlv_extended_pan_id present ≡ true
unfolding report_missing missing_types
none_missing present h = elim (Bool-cases (is_present thread_tlv_extended_pan_id present)) [
  | inl y ↦ y
  | inr n ↦ elim (Bool-cases (is_present thread_tlv_channel present)) [
    | inl c ↦ absurd (reported (rw (missing_types, c, n, report_missing) at h))
    | inr c ↦ absurd (reported (rw (missing_types, c, n, report_missing) at h))
  ]
]

-- A sequence of whole entries that passes the check has its Extended PAN ID extracted, from the first
-- entry of that type; only another length than 8 is then an error.
pub extract_extended_pan_id-validated :
    (entries : List Entry)
    → validate_thread_dataset (encode entries) ≡ ok tt
    → (extract_extended_pan_id (encode entries) ≡ pan_id_of entries)
      × (extract_extended_pan_id (encode entries) ≢ err no_extended_pan_id)
unfolding validate_thread_dataset extract_extended_pan_id
extract_extended_pan_id-validated entries h =
    let size = length (encode entries) in
    let same = extract_loop-encode size entries (omega arith) in
    elim (Bool-cases (ltb size min_thread_dataset_len)) [
      | inl y ↦ absurd (too_short (rw (validate_thread_dataset, y) at h))
      | inr n ↦
          let checked =
            rw (validate_thread_dataset, n, present_types-encode size entries (omega arith)) at h in
          (
            same,
            λ e. pan_id_of-present entries (none_missing (types entries) checked) (sym same ∙ e),
          )
    ]
