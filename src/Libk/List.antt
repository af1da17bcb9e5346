-- ===== src/Libk/List.antt =====
-- libk/klist.c: a singly linked list with its last node and its size.
-- The nodes stand in a store, a function from addresses to nodes, with the addresses that were given
-- back, newest first. The node that an allocator gives is an argument, 0 if there is none, for both
-- allocators. `none` is the abort of a `RUNTIME_CHECK`. The `DEBUG_ASSERT`s are left out, as in a
-- build with `NDEBUG`. The loops are on fuel, or on the index.
pub mod Chain
use Prim.Native.Nat.{bit_or}
use redshift.Base.{
  ℕ, zero, suc, ◌+◌, ◌-◌, ◌%◌, Bool, ◌||◌, Option, none, some, List, [], ◌∷◌, ltb, leb, ◌==◌,
  if◌then◌else◌,
}
use redshift.Base.Word.{u32_mod, test_flag}

-- `struct klist_node`.
pub record KlistNode : Type 0 where
  pub data_ : ℕ
  pub next : ℕ

-- `struct klist`.
pub record Klist : Type 0 where
  pub head : ℕ
  pub last : ℕ
  pub size : ℕ
  pub flags : ℕ

pub record Store : Type 0 where
  pub nodes : ℕ → KlistNode
  pub freed : List ℕ

abbrev pub is_duplicate : ℕ
is_duplicate = 2

abbrev pub write : Store → ℕ → KlistNode → Store
write s a n = record s { nodes = λ b. if b == a then n else s.nodes b }

abbrev pub free : ℕ → Store → Store
free a s = record s { freed = a ∷ s.freed }

-- `node = node->next`, `n` times.
unfoldable pub follow : Store → (n node : ℕ) → ℕ
follow s zero node = node
follow s (suc n) node = follow s n (s.nodes node).next

abbrev pub get_node_by_index : Store → Klist → (index : ℕ) → ℕ
get_node_by_index s list index =
    if index == 0
    then list.head
    else if index + 1 == list.size
    then list.last
    else follow s (suc index) list.head

unfoldable pub klist_append : (node : ℕ) → (data_ : ℕ) → Store → Klist → Option (Store × Klist)
klist_append node data_ s list =
    let made = write s node (record { data_ = data_; next = 0 }) in
    let grown = record list { last = node; size = (list.size + 1) % u32_mod } in
    if node == 0
    then none
    else if list.head == 0
    then some (made, record grown { head = node })
    else some (write made list.last (record (made.nodes list.last) { next = node }), grown)

-- The appends of `klist_create` and of `klist_grow`, each with the node that it is given.
unfoldable pub appends : List ℕ → (data_ : ℕ) → Store → Klist → Option (Store × Klist)
appends [] data_ s list = some (s, list)
appends (node ∷ nodes) data_ s list = elim (klist_append node data_ s list) [
  | none ↦ none
  | some r ↦ appends nodes data_ r.0 r.1
]

-- `list` is the address that the allocator gives; there is a node for each element.
unfoldable pub klist_create :
    (list flags : ℕ) → List ℕ → (data_ : ℕ) → Store → Option (Store × Klist)
klist_create list flags nodes data_ s =
    if list == 0
    then none
    else appends nodes data_ s (record { head = 0; last = 0; size = 0; flags = flags })

unfoldable pub klist_prepend : (node : ℕ) → (data_ : ℕ) → Store → Klist → Option (Store × Klist)
klist_prepend node data_ s list =
    if node == 0
    then none
    else some (
      write s node (record { data_ = data_; next = list.head }),
      record list { head = node; size = (list.size + 1) % u32_mod },
    )

unfoldable pub klist_insert :
    (node : ℕ) → (data_ index : ℕ) → Store → Klist → Option (Store × Klist)
klist_insert node data_ index s list =
    let before = get_node_by_index s list (index - 1) in
    let next = (s.nodes before).next in
    if leb index list.size
    then (if index == 0
        then klist_prepend node data_ s list
        else if index == list.size
        then klist_append node data_ s list
        else if node == 0
        then none
        else some (
          write (write s before (record (s.nodes before) { next = node })) node
              (record { data_ = data_; next = next }),
          record list { size = (list.size + 1) % u32_mod },
        ))
    else none

unfoldable pub klist_update : (index data_ : ℕ) → Store → Klist → Option (Store × Klist)
klist_update index data_ s list =
    let node = get_node_by_index s list index in
    if ltb index list.size
    then some (write s node (record (s.nodes node) { data_ = data_ }), list)
    else none

-- `size` is the number of the nodes.
unfoldable pub klist_grow : (nodes : List ℕ) → (size : ℕ) → Store → Klist → Option (Store × Klist)
klist_grow nodes size s list = if ltb list.size size then appends nodes 0 s list else none

-- The node before the last one.
unfoldable pub penultimate : (fuel : ℕ) → Store → (last node : ℕ) → ℕ
penultimate zero s last node = node
penultimate (suc fuel) s last node =
    let rest = penultimate fuel s last (s.nodes node).next in
    if (s.nodes node).next == last then node else rest

unfoldable pub klist_pop : (fuel : ℕ) → Store → Klist → ℕ × Store × Klist
klist_pop fuel s list =
    let node = penultimate fuel s list.last list.head in
    let cut = write s node (record (s.nodes node) { next = 0 }) in
    if (list.size == 1) || (list.head == list.last)
    then ((s.nodes list.head).data_, free list.head s, record list { head = 0; last = 0 })
    else (
      (s.nodes list.last).data_,
      free list.last (write cut list.last (record (cut.nodes list.last) { data_ = 0 })),
      record list { last = node; size = (list.size + u32_mod - 1) % u32_mod },
    )

-- The loop of `klist_shallow_shrink` and `klist_deep_shrink`; `deep` gives the data back too.
unfoldable pub pops : (fuel : ℕ) → (deep : Bool) → (size : ℕ) → Store → Klist → Store × Klist
pops zero deep size s list = (s, list)
pops (suc fuel) deep size s list =
    let (data_, s', list') = klist_pop list.size s list in
    let rest = pops fuel deep size (if deep then free data_ s' else s') list' in
    if ltb size list.size then rest else (s, list)

unfoldable pub klist_shrink :
    (fuel : ℕ) → (deep : Bool) → (size : ℕ) → Store → Klist → Option (Store × Klist)
klist_shrink fuel deep size s list =
    if ltb size list.size then some (pops fuel deep size s list) else none

-- `klist_shallow_remove` and `klist_deep_remove`, which gives the data back too.
unfoldable pub klist_remove : (deep : Bool) → (index : ℕ) → Store → Klist → Option (Store × Klist)
klist_remove deep index s list =
    let node = get_node_by_index s list index in
    let removed = (s.nodes node).next in
    let next = (s.nodes removed).next in
    let data_ = (s.nodes removed).data_ in
    let cleared = write s removed (record { data_ = 0; next = 0 }) in
    let given = free removed (if deep then free data_ cleared else cleared) in
    if ltb index list.size
    then some (
      write given node (record (given.nodes node) { next = next }),
      record list { size = (list.size + u32_mod - 1) % u32_mod },
    )
    else none

unfoldable pub free_nodes : (fuel : ℕ) → (deep : Bool) → (node : ℕ) → Store → Store
free_nodes zero deep node s = s
free_nodes (suc fuel) deep node s =
    let next = (s.nodes node).next in
    let cleared = write s node (record { data_ = 0; next = 0 }) in
    let rest =
      free_nodes fuel deep next
        (free node (if deep then free (s.nodes node).data_ cleared else cleared)) in
    if node == 0 then s else rest

-- `klist_shallow_free` and `klist_deep_free`, for the list at the address `address`.
unfoldable pub klist_free :
    (fuel : ℕ) → (deep : Bool) → (address : ℕ) → Store → Klist → Store × Klist
klist_free fuel deep address s list =
    let left = if test_flag list.flags is_duplicate then s else free_nodes fuel deep list.head s in
    (free address left, record list { head = 0; last = 0; size = 0 })

unfoldable pub klist_head : Store → Klist → ℕ
klist_head s list = (s.nodes list.head).data_

-- The tail shares the nodes. `old_flags` is what stands in the memory of the new list: the code
-- reads the flags from there.
unfoldable pub klist_tail : (tail old_flags : ℕ) → Klist → Store → Option (Option Klist)
klist_tail tail old_flags list s =
    if list.size == 1
    then some none
    else if tail == 0
    then none
    else some (
        some (record {
          head = (s.nodes list.head).next;
          last = list.last;
          size = (list.size + u32_mod - 1) % u32_mod;
          flags = bit_or old_flags is_duplicate;
        }))

unfoldable pub klist_index : Store → Klist → (index : ℕ) → Option ℕ
klist_index s list index =
    if ltb index list.size
    then (if index + 1 == list.size
        then some (s.nodes list.last).data_
        else some (s.nodes (follow s index list.head)).data_)
    else none

unfoldable pub klist_last : Store → Klist → ℕ
klist_last s list = (s.nodes list.last).data_
