-- ===== src/Libk/SortedArray.antt =====
-- libk/ksorted_array.c: arrays of pointers, kept in the order of a predicate.
-- The elements lie in memory, four bytes each. `allocate` gives the address of so many bytes, of dynamic or static memory. `none` is a
-- failed assertion or check.
pub mod Slots
pub mod Adding
pub mod Removing
use redshift.Base.{
  ℕ, zero, suc, ◌+◌, ◌-◌, ◌*◌, ◌%◌, ◌^◌, ◌/◌, Bool, true, false, ◌||◌, Option, none, some, List, [],
  ◌∷◌, ltb, leb, ◌==◌, if◌then◌else◌,
}
use redshift.Base.Word.{test_flag}
use redshift.Libk.String.{Memory}
use redshift.Libk.Memory.{load, store, kmemory_fill32}

abbrev pub Predicate : Type 0
Predicate = Memory → (a b : ℕ) → Bool

-- `struct ksorted_array`, whose predicate is an argument of the operations.
pub record Array : Type 0 where
  pub elements : ℕ
  pub freeable : Bool
  pub count : ℕ
  pub capacity : ℕ

-- The address of `list->elements[i]`, and what stands there.
abbrev pub slot : Array → ℕ → ℕ
slot list i = list.elements + 4 * i

abbrev pub element : Memory → Array → ℕ → ℕ
element mem list i = load mem (slot list i) 4

-- `*(T*)p` for a type of `k` bytes; a signed one is moved up by half its range, which keeps the order.
unfoldable pub value_at : (is_signed : Bool) → (k : ℕ) → Memory → ℕ → ℕ
value_at is_signed k mem p =
    if is_signed then (load mem p k + 256 ^ k / 2) % 256 ^ k else load mem p k

-- `DEFINE_ORDER_PREDICATES`
abbrev pub ascending_order_predicate : (is_signed : Bool) → (k : ℕ) → Predicate
ascending_order_predicate is_signed k mem pa pb =
    ltb (value_at is_signed k mem pa) (value_at is_signed k mem pb)

abbrev pub descending_order_predicate : (is_signed : Bool) → (k : ℕ) → Predicate
descending_order_predicate is_signed k mem pa pb =
    ltb (value_at is_signed k mem pb) (value_at is_signed k mem pa)

abbrev dynamic : ℕ → Bool
dynamic flags = test_flag flags 1

unfoldable pub ksorted_array_place :
    (allocate : Bool → ℕ → ℕ) → Memory → (address capacity flags : ℕ) → Option (Array × Memory)
ksorted_array_place allocate mem address capacity flags =
    let elements = allocate (dynamic flags) (4 * capacity) in
    if address == 0 || capacity == 0 || elements == 0
    then none
    else some (
      record { elements = elements; freeable = dynamic flags; count = 0; capacity = capacity },
      kmemory_fill32 mem elements 0 capacity,
    )

-- The structure is given the size of a pointer to it.
unfoldable pub ksorted_array_create :
    (allocate : Bool → ℕ → ℕ) → Memory → (capacity flags : ℕ) → Option (Array × Memory)
ksorted_array_create allocate mem capacity flags =
    ksorted_array_place allocate mem (allocate (dynamic flags) 4) capacity flags

-- The addresses that are freed, in order.
unfoldable pub ksorted_array_delete : (list : ℕ) → Array → List ℕ
ksorted_array_delete list a =
    if list == 0 then [] else if a.freeable then a.elements ∷ list ∷ [] else []

-- `for (; i < list->count && list->predicate(list->elements[i], element); ++i)`, with `n` elements
-- from `i` on.
unfoldable pub find_place : Predicate → Memory → Array → (e i n : ℕ) → ℕ
find_place predicate mem list e i zero = i
find_place predicate mem list e i (suc n) =
    let rest = find_place predicate mem list e (suc i) n in
    if predicate mem (element mem list i) e then rest else i

-- The result, with the array and the memory.
abbrev pub Added : Type 0
Added = ℕ × Array × Memory

abbrev pub grown : Array → Array
grown list = record list { count = suc list.count }

-- `RUNTIME_CHECK(list->count <= list->capacity)`
abbrev checked : (i : ℕ) → Array → Memory → Option Added
checked i list mem = if ltb list.capacity list.count then none else some (i, list, mem)

-- `none` stands also for the call of `kmemory_copy` that makes room in front of an element: the two
-- addresses differ, so the copy runs through the whole memory, whatever its size, and nothing is known
-- of the array then.
unfoldable pub ksorted_array_add : Predicate → Memory → Array → (e : ℕ) → Option Added
ksorted_array_add predicate mem list e =
    let i = find_place predicate mem list e 0 list.count in
    if list.elements == 0 || e == 0
    then none
    else if list.count == 0
    then some (1, grown list, store mem (slot list 0) e 4)
    else if leb list.count i
    then checked i (grown list) (store mem (slot list list.count) e 4)
    else none

unfoldable pub ksorted_array_get : Memory → Array → (index : ℕ) → Option ℕ
ksorted_array_get mem list index =
    if ltb index list.count then some (element mem list index) else none

-- `for (; index < list->count; ++index)`, of `n` rounds.
unfoldable pub move_down : Array → Memory → (index n : ℕ) → Memory
move_down list mem index zero = mem
move_down list mem index (suc n) =
    move_down list (store mem (slot list index) (element mem list (index + 1)) 4) (suc index) n

unfoldable pub ksorted_array_remove : Memory → Array → (index : ℕ) → Option (Array × Memory)
ksorted_array_remove mem list index =
    if ltb index list.count
    then some
        (record list { count = list.count - 1 }, move_down list mem index (list.count - index))
    else none

abbrev pub ksorted_array_count : Array → ℕ
ksorted_array_count list = list.count
