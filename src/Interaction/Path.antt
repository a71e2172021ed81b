-- ===== src/Interaction/Path.antt =====
-- internal/interaction/path.go, and the tri-state fields of internal/tlv/optional.go.
use matter_cli.Prelude.{ℕ, Bool, true, false, Option, none, some}

-- A field that is not on the wire, that is an explicit TLV null, or that has a value. Go keeps a
-- state beside the value, and the value is the zero value in the first two states.
pub data Optional {ℓ} (A : Type ℓ) : Type ℓ where
  absent null : Optional A
  present : A → Optional A

module _ {ℓ} {A : Type ℓ} where
  unfoldable is_absent : Optional A → Bool
  is_absent absent = true
  is_absent null = false
  is_absent (present x) = false

  unfoldable pub is_null : Optional A → Bool
  is_null absent = false
  is_null null = true
  is_null (present x) = false

  unfoldable is_present : Optional A → Bool
  is_present absent = false
  is_present null = false
  is_present (present x) = true

  -- `Get`, with the zero value of the type.
  unfoldable get : A → Optional A → A × Bool
  get zero_value absent = (zero_value, false)
  get zero_value null = (zero_value, false)
  get zero_value (present x) = (x, true)

-- A nil pointer is `none`, and stands for every value of its part of the path.
pub record AttributePath : Type 0 where
  pub enable_tag_compression : Option Bool
  pub node_id : Option ℕ
  pub endpoint_id : Option ℕ
  pub cluster_id : Option ℕ
  pub attribute_id : Option ℕ
  pub list_index : Optional ℕ

unfoldable pub new_attribute_path : ℕ → ℕ → ℕ → AttributePath
new_attribute_path endpoint cluster attribute = record {
  enable_tag_compression = none;
  node_id = none;
  endpoint_id = some endpoint;
  cluster_id = some cluster;
  attribute_id = some attribute;
  list_index = absent;
}

unfoldable pub new_wildcard_attribute_path : ℕ → ℕ → AttributePath
new_wildcard_attribute_path endpoint cluster = record {
  enable_tag_compression = none;
  node_id = none;
  endpoint_id = some endpoint;
  cluster_id = some cluster;
  attribute_id = none;
  list_index = absent;
}

pub record EventPath : Type 0 where
  pub node_id : Option ℕ
  pub endpoint_id : Option ℕ
  pub cluster_id : Option ℕ
  pub event_id : Option ℕ
  pub is_urgent : Option Bool

pub record CommandPath : Type 0 where
  pub endpoint_id : ℕ
  pub cluster_id : ℕ
  pub command_id : ℕ
