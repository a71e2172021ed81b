-- ===== src/Commissioning/Network.antt =====
-- internal/commissioning/network.go: network credentials and Thread operational datasets.
pub mod Dataset
use matter_cli.Prelude.{
  ℕ, zero, suc, Bool, true, false, not, if◌then◌else◌, ltb, ◌==◌, ◌||◌, Option, none, some, List,
  [], ◌∷◌, length, take, drop, Result, ok, err,
}

pub data NetworkType : Type 0 where
  network_ethernet network_wifi network_thread : NetworkType

pub record WifiCredentials : Type 0 where
  pub ssid : List ℕ
  pub password : List ℕ

pub record ThreadCredentials : Type 0 where
  pub operational_dataset : List ℕ

pub record NetworkCredentials : Type 0 where
  pub type_ : NetworkType
  pub wifi : Option WifiCredentials
  pub thread : Option ThreadCredentials

unfoldable new_wifi_credentials : List ℕ → List ℕ → NetworkCredentials
new_wifi_credentials ssid password = record {
  type_ = network_wifi;
  wifi = some (record { ssid = ssid; password = password });
  thread = none;
}

unfoldable new_thread_credentials : List ℕ → NetworkCredentials
new_thread_credentials dataset = record {
  type_ = network_thread;
  wifi = none;
  thread = some (record { operational_dataset = dataset });
}

abbrev new_ethernet_credentials : NetworkCredentials
new_ethernet_credentials = record { type_ = network_ethernet; wifi = none; thread = none }

abbrev pub thread_tlv_channel : ℕ
thread_tlv_channel = 0x00

abbrev pub thread_tlv_pan_id : ℕ
thread_tlv_pan_id = 0x01

abbrev pub thread_tlv_extended_pan_id : ℕ
thread_tlv_extended_pan_id = 0x02

abbrev pub thread_tlv_network_name : ℕ
thread_tlv_network_name = 0x03

abbrev pub thread_tlv_network_key : ℕ
thread_tlv_network_key = 0x05

abbrev pub min_thread_dataset_len : ℕ
min_thread_dataset_len = 50

abbrev pub required_thread_tlv_types : List ℕ
required_thread_tlv_types =
    thread_tlv_channel ∷ thread_tlv_extended_pan_id ∷ thread_tlv_network_key
    ∷ thread_tlv_network_name ∷ thread_tlv_pan_id ∷ []

pub data DatasetError : Type 0 where
  dataset_too_short : ℕ → DatasetError
  missing_fields : List ℕ → DatasetError
  truncated : ℕ → ℕ → DatasetError
  unexpected_length : ℕ → DatasetError
  no_extended_pan_id : DatasetError

-- The types that the loop of `ValidateThreadDataset` marks, with a round for each byte at most. A
-- header of one byte ends it, and so does a value that runs past the end, whose type is marked.
unfoldable pub present_types : ℕ → List ℕ → List ℕ
present_types zero dataset = []
present_types (suc fuel) [] = []
present_types (suc fuel) (t ∷ []) = []
present_types (suc fuel) (t ∷ len ∷ rest) = t ∷ present_types fuel (drop len rest)

unfoldable pub is_present : ℕ → List ℕ → Bool
is_present t [] = false
is_present t (x ∷ xs) = x == t || is_present t xs

unfoldable pub missing_types : List ℕ → List ℕ → List ℕ
missing_types [] present = []
missing_types (t ∷ required) present =
    let rest = missing_types required present in if is_present t present then rest else t ∷ rest

unfoldable pub report_missing : List ℕ → Result DatasetError (Unit {0})
report_missing [] = ok tt
report_missing (t ∷ missing) = err (missing_fields (t ∷ missing))

unfoldable pub validate_thread_dataset : List ℕ → Result DatasetError (Unit {0})
validate_thread_dataset dataset =
    if ltb (length dataset) min_thread_dataset_len
    then err (dataset_too_short (length dataset))
    else report_missing
        (missing_types required_thread_tlv_types (present_types (length dataset) dataset))

-- The loop of `ExtractExtendedPANID`, with a round for each byte at most.
unfoldable pub extract_loop : ℕ → List ℕ → Result DatasetError (List ℕ)
extract_loop zero dataset = err no_extended_pan_id
extract_loop (suc fuel) [] = err no_extended_pan_id
extract_loop (suc fuel) (t ∷ []) = err no_extended_pan_id
extract_loop (suc fuel) (t ∷ len ∷ rest) =
    let later = extract_loop fuel (drop len rest) in
    if ltb (length rest) len
    then err (truncated t len)
    else if t == thread_tlv_extended_pan_id
    then (if not (len == 8) then err (unexpected_length len) else ok (take 8 rest))
    else later

unfoldable pub extract_extended_pan_id : List ℕ → Result DatasetError (List ℕ)
extract_extended_pan_id dataset = extract_loop (length dataset) dataset
