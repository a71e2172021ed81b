-- ===== src/Store/Memory/Rooted.antt =====
-- internal/store/memory.go: in the store in memory, a node belongs to a fabric that exists.
use matter_cli.Prelude.{
  ◌≢◌, ==_iff, ℕ, ◌==◌, Option, none, some, ◌≡◌, refl, ap, ◌∙◌, Bool-cases, Option-cases, inl, inr,
}
use matter_cli.Prelude.Maps.{Map, lookup, insert, delete, lookup-insert, lookup-delete}
use matter_cli.Store.Types.{
  Fabric, Node, Call, save_fabric, get_fabric, delete_fabric, save_node, get_node, delete_node,
  save_resumption_info, get_resumption_info, set, get, close,
}
use matter_cli.Store.Memory.{
  MemoryStore, memory_save_fabric, memory_delete_fabric, memory_save_node, memory_delete_node,
  memory_save_resumption_info, memory_set, memory_close, perform,
}

-- Only fabrics that exist have nodes.
abbrev pub IsRooted : Map Fabric → Map (Map Node) → Type 0
IsRooted fabrics nodes = (id : ℕ) → lookup id fabrics ≡ none → lookup id nodes ≡ none

none_of {ℓ} : {V : Type ℓ} {v : V} {o : Option V} → o ≡ some v → o ≢ none
none_of e h = cc

IsRooted-fabric :
    (fabrics : Map Fabric) (nodes : Map (Map Node)) (id : ℕ) (f : Fabric)
    → IsRooted fabrics nodes
    → IsRooted (insert id f fabrics) nodes
IsRooted-fabric fabrics nodes id f rooted other e = elim (Bool-cases (id == other)) [
  | inl y ↦ absurd (none_of {v = f} (rw (lookup-insert id other f fabrics, y) refl) e)
  | inr n ↦ rooted other (rw (lookup-insert id other f fabrics, n) at e)
]

IsRooted-delete :
    (fabrics : Map Fabric) (nodes : Map (Map Node)) (id : ℕ)
    → IsRooted fabrics nodes
    → IsRooted (delete id fabrics) (delete id nodes)
IsRooted-delete fabrics nodes id rooted other e = elim (Bool-cases (id == other)) [
  | inl y ↦ rw (lookup-delete id other nodes, y) refl
  | inr n ↦
      rw (lookup-delete id other nodes, n)
        (rooted other (rw (lookup-delete id other fabrics, n) at e))
]

IsRooted-node :
    (fabrics : Map Fabric) (nodes : Map (Map Node)) (id : ℕ) (of : Map Node)
    → lookup id fabrics ≢ none
    → IsRooted fabrics nodes
    → IsRooted fabrics (insert id of nodes)
IsRooted-node fabrics nodes id of there rooted other e = elim (Bool-cases (id == other)) [
  | inl y ↦ absurd (there (ap (λ k. lookup k fabrics) ((==_iff id other).0 y) ∙ e))
  | inr n ↦ rw (lookup-insert id other of nodes, n) (rooted other e)
]

memory_delete_fabric-IsRooted :
    (m : MemoryStore) (id : ℕ)
    → IsRooted m.fabrics m.nodes
    → IsRooted (memory_delete_fabric m id).1.fabrics (memory_delete_fabric m id).1.nodes
unfolding memory_delete_fabric
memory_delete_fabric-IsRooted m id rooted = elim (Option-cases (lookup id m.fabrics)) [
  | inl e ↦ rw (memory_delete_fabric, e) rooted
  | inr (f, e) ↦ rw (memory_delete_fabric, e) (IsRooted-delete m.fabrics m.nodes id rooted)
]

memory_save_node-IsRooted :
    (m : MemoryStore) (id : ℕ) (n : Node)
    → IsRooted m.fabrics m.nodes
    → IsRooted (memory_save_node m id (some n)).1.fabrics (memory_save_node m id (some n)).1.nodes
unfolding memory_save_node
memory_save_node-IsRooted m id n rooted = elim (Option-cases (lookup id m.fabrics)) [
  | inl e ↦ rw (memory_save_node, e) rooted
  | inr (f, e) ↦ rw (memory_save_node, e) (IsRooted-node m.fabrics m.nodes id _ (none_of e) rooted)
]

memory_delete_node-IsRooted :
    (m : MemoryStore) (id key : ℕ)
    → IsRooted m.fabrics m.nodes
    → IsRooted (memory_delete_node m id key).1.fabrics (memory_delete_node m id key).1.nodes
unfolding memory_delete_node
memory_delete_node-IsRooted m id key rooted = elim (Option-cases (lookup id m.nodes)) [
  | inl e ↦ rw (memory_delete_node, e) rooted
  | inr (nodes, e) ↦ elim (Option-cases (lookup key nodes)) [
    | inl f ↦ rw (memory_delete_node, e, f) rooted
    | inr (n, f) ↦
        rw (memory_delete_node, e, f)
          (IsRooted-node m.fabrics m.nodes id (delete key nodes)
            (λ gone. none_of e (rooted id gone)) rooted)
  ]
]

pub perform-IsRooted :
    (m : MemoryStore) (c : Call)
    → IsRooted m.fabrics m.nodes
    → IsRooted (perform m c).1.fabrics (perform m c).1.nodes
unfolding perform memory_save_fabric memory_save_node memory_save_resumption_info memory_set
    memory_close
perform-IsRooted m (save_fabric none) rooted = rooted
perform-IsRooted m (save_fabric (some f)) rooted = IsRooted-fabric m.fabrics m.nodes f.id f rooted
perform-IsRooted m (get_fabric id) rooted = rooted
perform-IsRooted m (delete_fabric id) rooted = memory_delete_fabric-IsRooted m id rooted
perform-IsRooted m (save_node id none) rooted = rooted
perform-IsRooted m (save_node id (some n)) rooted = memory_save_node-IsRooted m id n rooted
perform-IsRooted m (get_node id key) rooted = rooted
perform-IsRooted m (delete_node id key) rooted = memory_delete_node-IsRooted m id key rooted
perform-IsRooted m (save_resumption_info none) rooted = rooted
perform-IsRooted m (save_resumption_info (some info)) rooted = rooted
perform-IsRooted m (get_resumption_info peer) rooted = rooted
perform-IsRooted m (set key value) rooted = rooted
perform-IsRooted m (get key) rooted = rooted
perform-IsRooted m close rooted = rooted
