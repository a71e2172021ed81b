-- ===== src/Store/Memory/Refines.antt =====
-- internal/store/memory.go against the promises of internal/store/store.go.
use matter_cli.Prelude.{
  ℕ, true, if◌then◌else◌, ◌==◌, Option, none, some, List, [], ◌∷◌, Result, ◌≡◌, refl, ap, ◌∙◌,
  fun_ext, Bool-cases, Option-cases, inl, inr, arith,
}
use matter_cli.Prelude.Maps.{lookup, insert, delete, lookup-insert, lookup-delete}
use matter_cli.Store.Types.{
  Text, Fabric, Node, ResumptionInfo, same_text, StoreError, Call, save_fabric, get_fabric,
  delete_fabric, save_node, get_node, delete_node, save_resumption_info, get_resumption_info, set,
  get, close, Reply,
}
use matter_cli.Store.Flat.{FlatStore, answer}
use matter_cli.Store.Memory.Rooted.{IsRooted, perform-IsRooted}
use matter_cli.Store.Memory.{
  MemoryStore, TextMap, text_lookup, text_insert, nodes_of, memory_save_fabric, memory_get_fabric,
  memory_delete_fabric, memory_save_node, memory_get_node, memory_delete_node,
  memory_save_resumption_info, memory_get_resumption_info, memory_set, memory_get, memory_close,
  perform,
}

-- What the store in memory holds under each key.
unfoldable pub view : MemoryStore → FlatStore
view m = record {
  fabrics = λ id. lookup id m.fabrics;
  nodes = λ id key. lookup key (nodes_of (lookup id m.nodes));
  resume = λ peer. lookup peer m.resume;
  kv = λ key. text_lookup key m.kv;
}

same_text_sym : (x y : Text) → same_text x y ≡ same_text y x
unfolding same_text
same_text_sym [] [] = refl
same_text_sym [] (y ∷ ys) = refl
same_text_sym (x ∷ xs) [] = refl
same_text_sym (x ∷ xs) (y ∷ ys) = ground (arith, same_text_sym xs ys)

same_text_sound : (x y : Text) → same_text x y ≡ true → x ≡ y
unfolding same_text
same_text_sound [] [] h = refl
same_text_sound [] (y ∷ ys) h = cc
same_text_sound (x ∷ xs) [] h = cc
same_text_sound (x ∷ xs) (y ∷ ys) h = ground (arith, same_text_sound xs ys)

text_lookup-insert :
    (key read : Text) (value : List ℕ) (entries : TextMap)
    → text_lookup read (text_insert key value entries)
      ≡ (if same_text key read then some value else text_lookup read entries)
unfolding text_lookup text_insert
text_lookup-insert key read value [] = refl
text_lookup-insert key read value ((at_key, old) ∷ entries) =
    elim (Bool-cases (same_text at_key key)) [
      | inl y ↦
          rw (text_insert, y, same_text_sound at_key key y)
            (elim (Bool-cases (same_text key read)) [ inl z ↦ rw z refl | inr z ↦ rw z refl ])
      | inr n ↦
          rw (text_insert, n)
            (elim (Bool-cases (same_text at_key read)) [
              | inl z ↦
                  rw (text_lookup, z, ← same_text_sound at_key read z, same_text_sym key at_key, n)
                    refl
              | inr z ↦ rw (text_lookup, z) (text_lookup-insert key read value entries)
            ])
    ]

flat_eq :
    (s : FlatStore) {fabrics : ℕ → Option Fabric} {nodes : ℕ → ℕ → Option Node}
    → ((id : ℕ) → s.fabrics id ≡ fabrics id)
    → ((id key : ℕ) → s.nodes id key ≡ nodes id key)
    → s ≡ record s { fabrics = fabrics; nodes = nodes }
flat_eq s {fabrics} {nodes} f n =
    ap (λ g. record s { fabrics = g; nodes = s.nodes }) (fun_ext f)
    ∙ ap (λ g. record s { fabrics = fabrics; nodes = g }) (fun_ext (λ id. fun_ext (n id)))

-- Each call answers as the interface promises, and leaves what it promises.
record Agrees (m : MemoryStore) (c : Call) : Type 0 where
  reply : (perform m c).0 ≡ (answer (view m) c).0
  state : view (perform m c).1 ≡ (answer (view m) c).1

get_fabric-Agrees : (m : MemoryStore) (id : ℕ) → Agrees m (get_fabric id)
unfolding perform answer view memory_get_fabric
get_fabric-Agrees m id = record {
  reply = elim (Option-cases (lookup id m.fabrics)) [
    | inl e ↦ rw (memory_get_fabric, e) refl
    | inr (f, e) ↦ rw (memory_get_fabric, e) refl
  ];
  state = refl;
}

save_fabric-Agrees : (m : MemoryStore) (f : Option Fabric) → Agrees m (save_fabric f)
unfolding perform answer view memory_save_fabric
save_fabric-Agrees m none = record { reply = refl; state = refl }
save_fabric-Agrees m (some f) = record {
  reply = refl;
  state =
      flat_eq (view (record m { fabrics = insert f.id f m.fabrics }))
        (λ id. lookup-insert f.id id f m.fabrics) (λ id key. refl);
}

delete_fabric-Agrees : (m : MemoryStore) (id : ℕ) → Agrees m (delete_fabric id)
unfolding perform answer view memory_delete_fabric nodes_of lookup
delete_fabric-Agrees m id = elim (Option-cases (lookup id m.fabrics)) [
  | inl e ↦ record {
    reply = rw (memory_delete_fabric, e) refl;
    state = rw (memory_delete_fabric, e) refl;
  }
  | inr (f, e) ↦ record {
    reply = rw (memory_delete_fabric, e) refl;
    state =
        rw (memory_delete_fabric, e)
          (flat_eq (view (record m { fabrics = delete id m.fabrics; nodes = delete id m.nodes }))
            (λ other. lookup-delete id other m.fabrics)
            (λ other key. elim (Bool-cases (id == other)) [
              | inl y ↦ rw (lookup-delete id other m.nodes, y) refl
              | inr n ↦ rw (lookup-delete id other m.nodes, n) refl
            ]));
  }
]

save_node-Agrees : (m : MemoryStore) (id : ℕ) (n : Option Node) → Agrees m (save_node id n)
unfolding perform answer view memory_save_node nodes_of
save_node-Agrees m id none = record { reply = refl; state = refl }
save_node-Agrees m id (some n) = elim (Option-cases (lookup id m.fabrics)) [
  | inl e ↦ record { reply = rw (memory_save_node, e) refl; state = rw (memory_save_node, e) refl }
  | inr (f, e) ↦
      let stored = record n { fabric_id = id } in
      let nodes = insert n.id stored (nodes_of (lookup id m.nodes)) in
      record {
        reply = rw (memory_save_node, e) refl;
        state =
            rw (memory_save_node, e)
              (flat_eq (view (record m { nodes = insert id nodes m.nodes })) (λ other. refl)
                (λ other key. elim (Bool-cases (id == other)) [
                  | inl y ↦
                      rw (lookup-insert id other nodes m.nodes, y)
                        (lookup-insert n.id key stored (nodes_of (lookup id m.nodes)))
                  | inr x ↦ rw (lookup-insert id other nodes m.nodes, x) refl
                ]));
      }
]

get_node-Agrees :
    (m : MemoryStore) (id key : ℕ) → IsRooted m.fabrics m.nodes → Agrees m (get_node id key)
unfolding perform answer view memory_get_node nodes_of lookup
get_node-Agrees m id key rooted = record {
  reply = elim (Option-cases (lookup id m.fabrics)) [
    | inl e ↦ rw (answer, memory_get_node, e, rooted id e) refl
    | inr (f, e) ↦ elim (Option-cases (lookup id m.nodes)) [
      | inl g ↦ rw (answer, memory_get_node, e, g) refl
      | inr (nodes, g) ↦ elim (Option-cases (lookup key nodes)) [
        | inl h ↦ rw (answer, memory_get_node, e, g, h) refl
        | inr (n, h) ↦ rw (answer, memory_get_node, e, g, h) refl
      ]
    ]
  ];
  state = refl;
}

delete_node-Agrees : (m : MemoryStore) (id key : ℕ) → Agrees m (delete_node id key)
unfolding perform answer view memory_delete_node nodes_of lookup
delete_node-Agrees m id key = elim (Option-cases (lookup id m.nodes)) [
  | inl e ↦ record {
    reply = rw (memory_delete_node, e) refl;
    state = rw (memory_delete_node, e) refl;
  }
  | inr (nodes, e) ↦ elim (Option-cases (lookup key nodes)) [
    | inl f ↦ record {
      reply = rw (memory_delete_node, e, f) refl;
      state = rw (memory_delete_node, e, f) refl;
    }
    | inr (n, f) ↦ record {
      reply = rw (memory_delete_node, e, f) refl;
      state =
          rw (memory_delete_node, e, f)
            (flat_eq (view (record m { nodes = insert id (delete key nodes) m.nodes }))
              (λ other. refl)
              (λ other k. elim (Bool-cases (id == other)) [
                | inl y ↦
                    rw (lookup-insert id other (delete key nodes) m.nodes, y)
                      (lookup-delete key k nodes)
                | inr x ↦ rw (lookup-insert id other (delete key nodes) m.nodes, x) refl
              ]));
    }
  ]
]

save_resumption_info-Agrees :
    (m : MemoryStore) (info : Option ResumptionInfo) → Agrees m (save_resumption_info info)
unfolding perform answer view memory_save_resumption_info
save_resumption_info-Agrees m none = record { reply = refl; state = refl }
save_resumption_info-Agrees m (some info) = record {
  reply = refl;
  state =
      ap (λ g. record (view m) { resume = g })
        (fun_ext (λ peer. lookup-insert info.peer_node_id peer info m.resume));
}

get_resumption_info-Agrees : (m : MemoryStore) (peer : ℕ) → Agrees m (get_resumption_info peer)
unfolding perform answer view memory_get_resumption_info
get_resumption_info-Agrees m peer = record {
  reply = elim (Option-cases (lookup peer m.resume)) [
    | inl e ↦ rw (memory_get_resumption_info, e) refl
    | inr (info, e) ↦ rw (memory_get_resumption_info, e) refl
  ];
  state = refl;
}

set-Agrees : (m : MemoryStore) (key : Text) (value : List ℕ) → Agrees m (set key value)
unfolding perform answer view memory_set
set-Agrees m key value = record {
  reply = refl;
  state =
      ap (λ g. record (view m) { kv = g })
        (fun_ext (λ read. text_lookup-insert key read value m.kv));
}

get-Agrees : (m : MemoryStore) (key : Text) → Agrees m (get key)
unfolding perform answer view memory_get
get-Agrees m key = record {
  reply = elim (Option-cases (text_lookup key m.kv)) [
    | inl e ↦ rw (memory_get, e) refl
    | inr (value, e) ↦ rw (memory_get, e) refl
  ];
  state = refl;
}

perform-Agrees : (m : MemoryStore) (c : Call) → IsRooted m.fabrics m.nodes → Agrees m c
unfolding perform answer view memory_close
perform-Agrees m (save_fabric f) rooted = save_fabric-Agrees m f
perform-Agrees m (get_fabric id) rooted = get_fabric-Agrees m id
perform-Agrees m (delete_fabric id) rooted = delete_fabric-Agrees m id
perform-Agrees m (save_node id n) rooted = save_node-Agrees m id n
perform-Agrees m (get_node id key) rooted = get_node-Agrees m id key rooted
perform-Agrees m (delete_node id key) rooted = delete_node-Agrees m id key
perform-Agrees m (save_resumption_info info) rooted = save_resumption_info-Agrees m info
perform-Agrees m (get_resumption_info peer) rooted = get_resumption_info-Agrees m peer
perform-Agrees m (set key value) rooted = set-Agrees m key value
perform-Agrees m (get key) rooted = get-Agrees m key
perform-Agrees m close rooted = record { reply = refl; state = refl }

-- The replies of a sequence of calls, from the store in memory and from the specification.
unfoldable pub replies : MemoryStore → List Call → List (Result StoreError Reply)
replies m [] = []
replies m (c ∷ cs) = let (r, after) = perform m c in r ∷ replies after cs

unfoldable pub answers : FlatStore → List Call → List (Result StoreError Reply)
answers s [] = []
answers s (c ∷ cs) = let (r, after) = answer s c in r ∷ answers after cs

-- Where only fabrics that exist have nodes, in every sequence of calls that save, get, delete, set or
-- close, the store in memory gives the replies that the interface promises to one that holds the same.
pub replies-answers :
    (m : MemoryStore) (cs : List Call)
    → IsRooted m.fabrics m.nodes
    → replies m cs ≡ answers (view m) cs
unfolding replies answers
replies-answers m [] rooted = refl
replies-answers m (c ∷ cs) rooted =
    let agrees = perform-Agrees m c rooted in
    ap (λ r. r ∷ replies (perform m c).1 cs) agrees.reply
    ∙ ap (λ rs. (answer (view m) c).0 ∷ rs)
        (replies-answers (perform m c).1 cs (perform-IsRooted m c rooted)
          ∙ ap (λ s. answers s cs) agrees.state)
