-- ===== src/Store/Types.antt =====
-- internal/store/types.go and store.go: fabrics, nodes and resumption data. A text is the list of
-- its bytes, and a time is a number.
use matter_cli.Prelude.{ℕ, Bool, true, false, if◌then◌else◌, ◌==◌, ◌||◌, Option, List, [], ◌∷◌}

abbrev pub Text : Type 0
Text = List ℕ

pub record Fabric : Type 0 where
  pub id : ℕ
  pub label : Text
  pub root_cert_pem : Text
  pub ica_cert_pem : Text
  pub private_key_pem : Text
  pub vendor_id : ℕ
  pub fabric_index : ℕ
  pub created_at : ℕ

pub record DeviceType : Type 0 where
  pub id : ℕ
  pub revision : ℕ

pub record ClusterRef : Type 0 where
  pub id : ℕ
  pub name : Text
  pub side : Text
  pub attributes : Option (List ℕ)

pub record Endpoint : Type 0 where
  pub id : ℕ
  pub device_types : List DeviceType
  pub clusters : List ClusterRef

pub record Node : Type 0 where
  pub id : ℕ
  pub fabric_id : ℕ
  pub name : Text
  pub vendor_id : ℕ
  pub product_id : ℕ
  pub specification_version : ℕ
  pub software_version : ℕ
  pub serial_number : Text
  pub endpoints : List Endpoint
  pub last_address : Text
  pub last_seen : ℕ

pub record ResumptionInfo : Type 0 where
  pub peer_node_id : ℕ
  pub resumption_id : List ℕ
  pub shared_secret : List ℕ
  pub case_session_params : List ℕ

unfoldable pub same_text : Text → Text → Bool
same_text [] [] = true
same_text [] (_ ∷ _) = false
same_text (_ ∷ _) [] = false
same_text (x ∷ xs) (y ∷ ys) = let rest = same_text xs ys in if x == y then rest else false

-- `IsServer`, with the text "server".
unfoldable is_server : ClusterRef → Bool
is_server c = same_text c.side (115 ∷ 101 ∷ 114 ∷ 118 ∷ 101 ∷ 114 ∷ []) || same_text c.side []

-- `nil_argument` for the errors of the three methods that take a pointer.
pub data StoreError : Type 0 where
  not_found nil_argument : StoreError

-- A call of the interface `Store`, but for the two that list.
pub data Call : Type 0 where
  save_fabric : Option Fabric → Call
  get_fabric : ℕ → Call
  delete_fabric : ℕ → Call
  save_node : ℕ → Option Node → Call
  get_node : ℕ → ℕ → Call
  delete_node : ℕ → ℕ → Call
  save_resumption_info : Option ResumptionInfo → Call
  get_resumption_info : ℕ → Call
  set : Text → List ℕ → Call
  get : Text → Call
  close : Call

-- What a call gives that does not fail.
pub data Reply : Type 0 where
  done : Reply
  fabric : Fabric → Reply
  node : Node → Reply
  resumption : ResumptionInfo → Reply
  bytes : List ℕ → Reply
