-- ===== src/Tests/Stores.antt =====
-- internal/store at concrete inputs.
use matter_cli.Prelude.{false, arith, ◌≡◌, refl, some, List, [], ◌∷◌, ok, err}
use matter_cli.Prelude.Maps.{lookup, insert, delete}
use matter_cli.Store.Types.{
  Fabric, Node, Call, save_fabric, delete_fabric, save_node, get_node, not_found, done, node,
}
use matter_cli.Store.Memory.{
  new_memory_store, nodes_of, memory_save_fabric, memory_delete_fabric, memory_save_node,
  memory_get_node, perform, MemoryStore, values, insert_node, sort_nodes_by_id, memory_list_nodes,
}
use matter_cli.Store.Memory.Listing.{memory_list_nodes-order}
use mathlib.Core.List.{reverse}
use mathlib.Core.List.Permᴰ
use matter_cli.Store.Memory.Rooted.{IsRooted}
use matter_cli.Store.Memory.Refines.{view, replies, answers, replies-answers}

abbrev home : Fabric
home = record {
  id = 4;
  label = [];
  root_cert_pem = [];
  ica_cert_pem = [];
  private_key_pem = [];
  vendor_id = 1;
  fabric_index = 1;
  created_at = 0;
}

abbrev lamp : Node
lamp = record {
  id = 9;
  fabric_id = 0;
  name = [];
  vendor_id = 1;
  product_id = 2;
  specification_version = 0;
  software_version = 0;
  serial_number = [];
  endpoints = [];
  last_address = [];
  last_seen = 0;
}

-- A node is saved too early, then found in its fabric, and gone with it.
abbrev calls : List Call
calls =
    save_node 4 (some lamp)
    ∷ save_fabric (some home)
    ∷ save_node 4 (some lamp)
    ∷ get_node 4 9
    ∷ delete_fabric 4
    ∷ get_node 4 9
    ∷ []

calls_run :
    replies new_memory_store calls
    ≡ err not_found
      ∷ ok done
      ∷ ok done
      ∷ ok (node (record lamp { fabric_id = 4 }))
      ∷ ok done
      ∷ err not_found
      ∷ []
unfolding replies perform memory_save_fabric memory_delete_fabric memory_save_node memory_get_node
    lookup insert delete nodes_of
calls_run = refl

nothing_stored : IsRooted new_memory_store.fabrics new_memory_store.nodes
unfolding lookup
nothing_stored id e = refl

replies-answers_example : replies new_memory_store calls ≡ answers (view new_memory_store) calls
replies-answers_example = replies-answers new_memory_store calls nothing_stored

-- Two nodes, which the map gives in one order or the other.
abbrev two_nodes : MemoryStore
two_nodes = record {
  fabrics = (4, home) ∷ [];
  nodes = (4, (9, lamp) ∷ (3, record lamp { id = 3 }) ∷ []) ∷ [];
  resume = [];
  kv = [];
  closed = false;
}

memory_list_nodes-order_example :
    memory_list_nodes reverse two_nodes 4 ≡ memory_list_nodes (λ nodes. nodes) two_nodes 4
unfolding lookup nodes_of values
memory_list_nodes-order_example =
    memory_list_nodes-order reverse two_nodes 4 (λ nodes. Permᴰ.symm (Permᴰ.reverse nodes))
      (((λ e. omega arith), tt), (tt, tt))

in_order : memory_list_nodes (λ nodes. nodes) two_nodes 4 ≡ ok (record lamp { id = 3 } ∷ lamp ∷ [])
unfolding memory_list_nodes lookup nodes_of values sort_nodes_by_id insert_node
in_order = refl
