-- ===== src/Store/Memory/Listing.antt =====
-- internal/store/memory.go: the list of nodes does not show the order of a Go map.
use matter_cli.Prelude.{
  ℕ, ◌≡◌, ◌≢◌, refl, sym, ap, subst, ◌∙◌, List, [], ◌∷◌, All, ok, arith, Option-cases, inl, inr,
}
use mathlib.Core.List.{Permᴰ}
use matter_cli.Prelude.Maps.{lookup}
use matter_cli.Store.Types.{Node}
use matter_cli.Store.Memory.{
  MemoryStore, nodes_of, values, insert_node, sort_nodes_by_id, memory_list_nodes,
}

abbrev pub AreDistinct : List Node → Type 0
AreDistinct [] = Unit
AreDistinct (n ∷ ns) = All (λ x. n.id ≢ x.id) ns × AreDistinct ns

insert_node_comm :
    (a b : Node) (ns : List Node)
    → a.id ≢ b.id
    → insert_node a (insert_node b ns) ≡ insert_node b (insert_node a ns)
unfolding insert_node
insert_node_comm a b [] h = ground arith
insert_node_comm a b (x ∷ xs) h = ground (arith, insert_node_comm a b xs h)

-- No node of the list has that ID.
abbrev IsNew : Node → List Node → Type 0
IsNew n ns = All (λ x. n.id ≢ x.id) ns

IsNew-reordered : (n : Node) {xs ys : List Node} → Permᴰ xs ys → IsNew n xs → IsNew n ys
IsNew-reordered n Permᴰ.nil h = tt
IsNew-reordered n (Permᴰ.cons e p) (h, hs) = (rw (← e) h, IsNew-reordered n p hs)
IsNew-reordered n (Permᴰ.swap e f) (h, (k, hs)) = (rw (← f) k, (rw (← e) h, hs))
IsNew-reordered n (Permᴰ.trans p q) h = IsNew-reordered n q (IsNew-reordered n p h)

AreDistinct-reordered : {xs ys : List Node} → Permᴰ xs ys → AreDistinct xs → AreDistinct ys
AreDistinct-reordered Permᴰ.nil h = tt
AreDistinct-reordered (Permᴰ.cons {a} {b} e p) (h, hs) =
    (rw (← e) (IsNew-reordered a p h), AreDistinct-reordered p hs)
AreDistinct-reordered (Permᴰ.swap {l} e f) ((h, h'), (k, hs)) = (
  (rw (← e, ← f) (λ same. h (sym same)), subst (λ n. IsNew n l) f k),
  (subst (λ n. IsNew n l) e h', hs),
)
AreDistinct-reordered (Permᴰ.trans p q) h = AreDistinct-reordered q (AreDistinct-reordered p h)

sort_nodes_by_id-reordered :
    {xs ys : List Node} → Permᴰ xs ys → AreDistinct xs → sort_nodes_by_id xs ≡ sort_nodes_by_id ys
unfolding sort_nodes_by_id
sort_nodes_by_id-reordered Permᴰ.nil h = refl
sort_nodes_by_id-reordered (Permᴰ.cons {b} e p) (h, hs) =
    rw (e, sort_nodes_by_id-reordered p hs) refl
sort_nodes_by_id-reordered (Permᴰ.swap {a} {b} {l} e f) ((h, h'), (k, hs)) =
    rw (← e, ← f) (insert_node_comm a b (sort_nodes_by_id l) h)
sort_nodes_by_id-reordered (Permᴰ.trans p q) h =
    sort_nodes_by_id-reordered p h ∙ sort_nodes_by_id-reordered q (AreDistinct-reordered p h)

-- The list of the nodes of a fabric is the same in whatever order the map gives them, where no two
-- of them have the same ID.
pub memory_list_nodes-order :
    (order : List Node → List Node) (m : MemoryStore) (id : ℕ)
    → ((nodes : List Node) → Permᴰ nodes (order nodes))
    → AreDistinct (values (nodes_of (lookup id m.nodes)))
    → memory_list_nodes order m id ≡ memory_list_nodes (λ nodes. nodes) m id
unfolding memory_list_nodes
memory_list_nodes-order order m id p h = elim (Option-cases (lookup id m.fabrics)) [
  | inl e ↦ rw (memory_list_nodes, e) refl
  | inr (f, e) ↦
      rw (memory_list_nodes, e)
        (ap ok (sym (sort_nodes_by_id-reordered (p (values (nodes_of (lookup id m.nodes)))) h)))
]
