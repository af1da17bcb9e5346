-- ===== src/Mem/Heap/Holes.antt =====
-- arch/i686/mem/heap.c: looking for holes, and creating blocks.
use redshift.Base.{
  ℕ, zero, suc, ◌+◌, ◌-◌, ◌*◌, ◌%◌, Bool, Option, none, some, ltb, leb, ◌==◌, ◌||◌, not,
  if◌then◌else◌,
}
use redshift.Libk.String.{Memory}
use redshift.Libk.SortedArray.{
  Array, ksorted_array_add, ksorted_array_get, ksorted_array_count, ksorted_array_place,
}
use redshift.Mem.Align.{page_size, is_aligned}
use redshift.Mem.Heap.Blocks.{
  Heap, plus, minus, size_of, get_usable_address, total_block_size, usable_block_size, footer_size,
  blockheader_ascending_predicate, place_header, place_footer, available, block_magic, set_word,
  blocklist_size,
}

-- `a >= b` for `int32_t`s.
abbrev pub signed_leb : (b a : ℕ) → Bool
signed_leb b a = leb (plus b 0x8000_0000) (plus a 0x8000_0000)

-- The test of one hole.
unfoldable pub suffices : Memory → (size : ℕ) → (aligned : Bool) → (header : ℕ) → Bool
suffices mem size aligned header =
    let address = get_usable_address header in
    let offset = if is_aligned address page_size then 0 else page_size - address % page_size in
    if aligned
    then signed_leb size (minus (size_of mem header) offset)
    else leb size (size_of mem header)

-- The loop, with `n` blocks from index `i` on; none for -1.
unfoldable pub smallest_hole :
    Memory → (blocklist : Array) → (size : ℕ) → (aligned : Bool) → (i n : ℕ) → Option ℕ
smallest_hole mem blocklist size aligned i zero = none
smallest_hole mem blocklist size aligned i (suc n) =
    let rest = smallest_hole mem blocklist size aligned (suc i) n in
    elim (ksorted_array_get mem blocklist i) [
      | none ↦ none
      | some header ↦ if suffices mem size aligned header then some i else rest
    ]

unfoldable pub get_smallest_hole : Memory → Heap → (size : ℕ) → (aligned : Bool) → Option ℕ
get_smallest_hole mem heap size aligned =
    smallest_hole mem heap.blocklist size aligned 0 (ksorted_array_count heap.blocklist)

-- The loop of `get_last_block`, with `n` blocks from index `i` on.
unfoldable pub last_block :
    Memory → (blocklist : Array) → (i n last_value : ℕ) → (last_index : Option ℕ) → Option ℕ
last_block mem blocklist i zero last_value last_index = last_index
last_block mem blocklist i (suc n) last_value last_index =
    elim (ksorted_array_get mem blocklist i) [
      | none ↦ none
      | some value ↦
          if ltb last_value value
          then last_block mem blocklist (suc i) n value (some i)
          else last_block mem blocklist (suc i) n last_value last_index
    ]

unfoldable pub get_last_block : Memory → Heap → Option ℕ
get_last_block mem heap =
    last_block mem heap.blocklist 0 (ksorted_array_count heap.blocklist) 0 none

-- The block, with the heap and the memory; `none` is a failed assertion.
abbrev pub Placed : Type 0
Placed = ℕ × Heap × Memory

-- `ksorted_array_add(heap->blocklist, (void*)header)`
unfoldable pub add_block : (header : ℕ) → Heap → Memory → Option Placed
add_block header heap mem =
    elim (ksorted_array_add blockheader_ascending_predicate mem heap.blocklist header) [
      | none ↦ none
      | some (i, list, mem') ↦ some (header, record heap { blocklist = list }, mem')
    ]

-- The address, for an index of -1, or that of the block there.
unfoldable pub block_address : Memory → Heap → (index : Option ℕ) → (address : ℕ) → Option ℕ
block_address mem heap none address = some address
block_address mem heap (some i) address = elim (ksorted_array_get mem heap.blocklist i) [
  | none ↦ none
  | some a ↦ if a == 0 then none else some a
]

unfoldable pub create_or_update_block :
    (index : Option ℕ) → (address alloc_size flags : ℕ) → Heap → Memory → Option Placed
create_or_update_block index address alloc_size flags heap mem =
    elim (block_address mem heap index address) [
      | none ↦ none
      | some header ↦
          add_block header heap (place_footer (place_header mem header alloc_size flags) header)
    ]

unfoldable pub create_hole : (address hole_size : ℕ) → Heap → Memory → Option Placed
create_hole address hole_size heap mem =
    let size =
      if ltb heap.end (plus address (total_block_size hole_size))
      then minus hole_size footer_size
      else hole_size in
    add_block address heap (place_footer (place_header mem address size available) address)

-- `heap` is the structure at `address`, which `static_alloc` gave; `allocate` gives the memory of the
-- list. `none` is a failed assertion.
unfoldable pub create_heap :
    (allocate : Bool → ℕ → ℕ)
    → (address start end max_size flags : ℕ) → Memory
    → Option (Heap × Memory)
create_heap allocate address start end max_size flags mem =
    let first = plus start (blocklist_size * 4) in
    if not (start % page_size == 0) || not (end % page_size == 0)
    then none
    else if ltb max_size (minus end start) || address == 0
    then none
    else elim (ksorted_array_place allocate mem start blocklist_size 1) [
      | none ↦ none
      | some (list, placed) ↦
          let sized = set_word placed (first + 8) (usable_block_size (minus end first)) in
          let mem' = set_word (set_word sized first block_magic) (first + 4) available in
          elim (add_block first
            (record {
              blocklist = list;
              start = first;
              end = end;
              max_size = max_size;
              alloc_count = 0;
              free_count = 0;
              bytes_allocd = 0;
              flags = flags;
            })
            mem') [ none ↦ none | some (header, heap, mem'') ↦ some (heap, mem'') ]
    ]
