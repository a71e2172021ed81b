-- ===== src/Store/Flat.antt =====
-- internal/store/store.go: the interface `Store` as its comments say it: each kind of entry is found
-- under its key, and a missing one is `ErrNotFound`.
use matter_cli.Prelude.{ℕ, if◌then◌else◌, ◌==◌, Option, none, some, List, Result, ok, err}
use matter_cli.Store.Types.{
  Text, Fabric, Node, ResumptionInfo, same_text, StoreError, not_found, nil_argument, Call,
  save_fabric, get_fabric, delete_fabric, save_node, get_node, delete_node, save_resumption_info,
  get_resumption_info, set, get, close, Reply, done, fabric, node, resumption, bytes,
}

pub record FlatStore : Type 0 where
  pub fabrics : ℕ → Option Fabric
  pub nodes : ℕ → ℕ → Option Node
  pub resume : ℕ → Option ResumptionInfo
  pub kv : Text → Option (List ℕ)

abbrev pub found {ℓ} : {A : Type ℓ} → (A → Reply) → Option A → Result StoreError Reply
found reply none = err not_found
found reply (some a) = ok (reply a)

-- A change that is made only if the entry is there.
abbrev pub guarded {ℓ κ} :
    {A : Type ℓ} {S : Type κ} → Option A → S → S → Result StoreError Reply × S
guarded none s changed = (err not_found, s)
guarded (some _) s changed = (ok done, changed)

unfoldable pub answer : FlatStore → Call → Result StoreError Reply × FlatStore
answer s (save_fabric none) = (err nil_argument, s)
answer s (save_fabric (some f)) =
    (ok done, record s { fabrics = λ id. if f.id == id then some f else s.fabrics id })
answer s (get_fabric id) = (found fabric (s.fabrics id), s)
answer s (delete_fabric id) = guarded (s.fabrics id) s (record s {
  fabrics = λ other. if id == other then none else s.fabrics other;
  nodes = λ other. if id == other then (λ _. none) else s.nodes other;
})
answer s (save_node id none) = (err nil_argument, s)
answer s (save_node id (some n)) = guarded (s.fabrics id) s (record s {
  nodes = λ other.
      if id == other
      then (λ key. if n.id == key then some (record n { fabric_id = id }) else s.nodes id key)
      else s.nodes other;
})
answer s (get_node id key) =
    (elim (s.fabrics id) [ none ↦ err not_found | some _ ↦ found node (s.nodes id key) ], s)
answer s (delete_node id key) = guarded (s.nodes id key) s (record s {
  nodes = λ other.
      if id == other then (λ k. if key == k then none else s.nodes id k) else s.nodes other;
})
answer s (save_resumption_info none) = (err nil_argument, s)
answer s (save_resumption_info (some info)) = (
  ok done,
  record s { resume = λ peer. if info.peer_node_id == peer then some info else s.resume peer },
)
answer s (get_resumption_info peer) = (found resumption (s.resume peer), s)
answer s (set key value) =
    (ok done, record s { kv = λ k. if same_text key k then some value else s.kv k })
answer s (get key) = (found bytes (s.kv key), s)
answer s close = (ok done, s)
