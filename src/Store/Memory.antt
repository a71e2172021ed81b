-- ===== src/Store/Memory.antt =====
-- internal/store/memory.go: the store in memory. Its copies of what it is given and of what it gives
-- are values here.
pub mod Rooted
pub mod Refines
pub mod Listing
use matter_cli.Prelude.{
  ℕ, Bool, true, false, if◌then◌else◌, ◌==◌, ltb, Option, none, some, List, [], ◌∷◌, Result, ok,
  err,
}
use matter_cli.Prelude.Maps.{Map, lookup, insert, delete}
use matter_cli.Store.Types.{
  Text, Fabric, Node, ResumptionInfo, same_text, StoreError, not_found, nil_argument, Call,
  save_fabric, get_fabric, delete_fabric, save_node, get_node, delete_node, save_resumption_info,
  get_resumption_info, set, get, close, Reply, done, fabric, node, resumption, bytes,
}

-- A Go map with texts for keys.
abbrev pub TextMap : Type 0
TextMap = List (Text × List ℕ)

unfoldable pub text_lookup : Text → TextMap → Option (List ℕ)
text_lookup key [] = none
text_lookup key ((at_key, value) ∷ entries) =
    if same_text at_key key then some value else text_lookup key entries

unfoldable pub text_insert : Text → List ℕ → TextMap → TextMap
text_insert key value [] = (key, value) ∷ []
text_insert key value ((at_key, old) ∷ entries) =
    let rest = text_insert key value entries in
    if same_text at_key key then (key, value) ∷ entries else (at_key, old) ∷ rest

pub record MemoryStore : Type 0 where
  pub fabrics : Map Fabric
  pub nodes : Map (Map Node)
  pub resume : Map ResumptionInfo
  pub kv : TextMap
  pub closed : Bool

abbrev pub new_memory_store : MemoryStore
new_memory_store = record { fabrics = []; nodes = []; resume = []; kv = []; closed = false }

unfoldable pub memory_save_fabric :
    MemoryStore → Option Fabric → Result StoreError Reply × MemoryStore
memory_save_fabric m none = (err nil_argument, m)
memory_save_fabric m (some f) = (ok done, record m { fabrics = insert f.id f m.fabrics })

unfoldable pub memory_get_fabric : MemoryStore → ℕ → Result StoreError Reply
memory_get_fabric m id = elim (lookup id m.fabrics) [
  | none ↦ err not_found
  | some f ↦ ok (fabric f)
]

unfoldable pub memory_delete_fabric : MemoryStore → ℕ → Result StoreError Reply × MemoryStore
memory_delete_fabric m id = elim (lookup id m.fabrics) [
  | none ↦ (err not_found, m)
  | some _ ↦ (ok done, record m { fabrics = delete id m.fabrics; nodes = delete id m.nodes })
]

-- `m.nodes[fabricID]`, made if it is not there.
unfoldable pub nodes_of : Option (Map Node) → Map Node
nodes_of none = []
nodes_of (some nodes) = nodes

unfoldable pub memory_save_node :
    MemoryStore → ℕ → Option Node → Result StoreError Reply × MemoryStore
memory_save_node m id none = (err nil_argument, m)
memory_save_node m id (some n) = elim (lookup id m.fabrics) [
  | none ↦ (err not_found, m)
  | some _ ↦ (
    ok done,
    record m {
      nodes =
          insert id (insert n.id (record n { fabric_id = id }) (nodes_of (lookup id m.nodes)))
            m.nodes;
    },
  )
]

unfoldable pub memory_get_node : MemoryStore → ℕ → ℕ → Result StoreError Reply
memory_get_node m id key = elim (lookup id m.nodes) [
  | none ↦ err not_found
  | some nodes ↦ elim (lookup key nodes) [ none ↦ err not_found | some n ↦ ok (node n) ]
]

unfoldable pub memory_delete_node : MemoryStore → ℕ → ℕ → Result StoreError Reply × MemoryStore
memory_delete_node m id key = elim (lookup id m.nodes) [
  | none ↦ (err not_found, m)
  | some nodes ↦ elim (lookup key nodes) [
    | none ↦ (err not_found, m)
    | some _ ↦ (ok done, record m { nodes = insert id (delete key nodes) m.nodes })
  ]
]

unfoldable pub values {ℓ} : {V : Type ℓ} → Map V → List V
values [] = []
values ((key, value) ∷ entries) = value ∷ values entries

-- `sort.Slice` by ID: the nodes that come first are inserted last.
unfoldable pub insert_node : Node → List Node → List Node
insert_node n [] = n ∷ []
insert_node n (x ∷ xs) =
    let rest = insert_node n xs in if ltb n.id x.id then n ∷ x ∷ xs else x ∷ rest

unfoldable pub sort_nodes_by_id : List Node → List Node
sort_nodes_by_id [] = []
sort_nodes_by_id (n ∷ ns) = insert_node n (sort_nodes_by_id ns)

-- `range` gives the values of a map in an order of its own, `order`.
unfoldable pub memory_list_nodes :
    (List Node → List Node) → MemoryStore → ℕ → Result StoreError (List Node)
memory_list_nodes order m id = elim (lookup id m.fabrics) [
  | none ↦ err not_found
  | some _ ↦ ok (sort_nodes_by_id (order (values (nodes_of (lookup id m.nodes)))))
]

unfoldable memory_list_fabrics : (List Fabric → List Fabric) → MemoryStore → List Fabric
memory_list_fabrics order m = order (values m.fabrics)

unfoldable pub memory_save_resumption_info :
    MemoryStore → Option ResumptionInfo → Result StoreError Reply × MemoryStore
memory_save_resumption_info m none = (err nil_argument, m)
memory_save_resumption_info m (some info) =
    (ok done, record m { resume = insert info.peer_node_id info m.resume })

unfoldable pub memory_get_resumption_info : MemoryStore → ℕ → Result StoreError Reply
memory_get_resumption_info m peer = elim (lookup peer m.resume) [
  | none ↦ err not_found
  | some info ↦ ok (resumption info)
]

unfoldable pub memory_set : MemoryStore → Text → List ℕ → Result StoreError Reply × MemoryStore
memory_set m key value = (ok done, record m { kv = text_insert key value m.kv })

unfoldable pub memory_get : MemoryStore → Text → Result StoreError Reply
memory_get m key = elim (text_lookup key m.kv) [
  | none ↦ err not_found
  | some value ↦ ok (bytes value)
]

unfoldable pub memory_close : MemoryStore → Result StoreError Reply × MemoryStore
memory_close m = (ok done, record m { closed = true })

-- A call of the interface on the store in memory.
unfoldable pub perform : MemoryStore → Call → Result StoreError Reply × MemoryStore
perform m (save_fabric f) = memory_save_fabric m f
perform m (get_fabric id) = (memory_get_fabric m id, m)
perform m (delete_fabric id) = memory_delete_fabric m id
perform m (save_node id n) = memory_save_node m id n
perform m (get_node id key) = (memory_get_node m id key, m)
perform m (delete_node id key) = memory_delete_node m id key
perform m (save_resumption_info info) = memory_save_resumption_info m info
perform m (get_resumption_info peer) = (memory_get_resumption_info m peer, m)
perform m (set key value) = memory_set m key value
perform m (get key) = (memory_get m key, m)
perform m close = memory_close m
