-- ===== src/Mem/Heap/Allocation.antt =====
-- arch/i686/mem/heap.c: allocating memory.
use Prim.Native.Nat.{bit_and}
use redshift.Base.{
  ℕ, zero, suc, ◌+◌, ◌%◌, ◌&&◌, not, Bool, true, false, Option, none, some, ltb, leb, ◌==◌,
  if◌then◌else◌,
}
use redshift.Base.Word.{u64_mod}
use redshift.Libk.String.{Memory}
use redshift.Libk.SortedArray.{ksorted_array_get, ksorted_array_remove}
use redshift.Mem.Align.{page_size, is_aligned}
use redshift.Mem.Heap.Blocks.{
  Heap, plus, minus, size_of, get_heap_size, get_usable_address, total_block_size, header_size,
  footer_size, minimum_block_size, available, allocated,
}
use redshift.Mem.Heap.Growth.{Paging, heap_expand}
use redshift.Mem.Heap.Holes.{
  Placed, get_smallest_hole, get_last_block, create_or_update_block, create_hole,
}

-- The size to allocate, with what is left of a hole that is too small to be split.
unfoldable pub padded_size : (original_size alloc_size : ℕ) → ℕ
padded_size original_size alloc_size =
    let left = minus original_size (total_block_size alloc_size) in
    if leb left minimum_block_size then plus alloc_size left else alloc_size

-- The address and the size of what is allocated in, with the heap and the memory.
abbrev pub Space : Type 0
Space = ℕ × ℕ × Heap × Memory

-- The block is aligned, behind a new hole in front of it, or the hole is taken from the list.
unfoldable pub take_hole :
    (hole address size : ℕ) → (page_align : Bool) → Heap → Memory → Option Space
take_hole hole address size page_align heap mem =
    let adjusted_size = minus (minus page_size (bit_and address 0xfff)) header_size in
    elim (page_align && not (is_aligned address page_size)) [
      | true ↦ elim (create_hole address adjusted_size heap mem) [
        | none ↦ none
        | some (header, heap', mem') ↦
            let rest = minus size (size_of mem' header) in
            if rest == 0 then none else some (plus address adjusted_size, rest, heap', mem')
      ]
      | false ↦ elim (ksorted_array_remove mem heap.blocklist hole) [
        | none ↦ none
        | some (list, mem') ↦ some (address, size, record heap { blocklist = list }, mem')
      ]
    ]

-- The allocated block, and the hole behind it when `alloc_size - block_size` is large enough.
unfoldable pub split_space :
    (alloc_size block_size address size : ℕ) → Heap → Memory → Option Placed
split_space alloc_size block_size address size heap mem =
    elim (create_or_update_block none address block_size allocated heap mem) [
      | none ↦ none
      | some (header, heap', mem') ↦
          let hole_address = plus (plus (plus address header_size) alloc_size) footer_size in
          let hole_size = minus size minimum_block_size in
          elim (ltb minimum_block_size (minus alloc_size block_size)) [
            | false ↦ some (header, heap', mem')
            | true ↦
                if hole_size == 0
                then none
                else elim (create_hole hole_address hole_size heap' mem') [
                  | none ↦ none
                  | some (next, heap'', mem'') ↦ some (header, heap'', mem'')
                ]
          ]
    ]

-- The header of the block, which is what the source returns.
unfoldable pub alloc_with_hole :
    (hole alloc_size : ℕ) → (page_align : Bool) → Heap → Memory → Option Placed
alloc_with_hole hole alloc_size page_align heap mem =
    elim (ksorted_array_get mem heap.blocklist hole) [
      | none ↦ none
      | some address ↦
          let size = size_of mem address in
          let padded = padded_size size alloc_size in
          elim (if address == 0 then none else take_hole hole address size page_align heap mem) [
            | none ↦ none
            | some (address', size', heap', mem') ↦
                split_space padded (total_block_size padded) address' size' heap' mem'
          ]
    ]

-- What a call of `heap_alloc` comes to: an address, a failed assertion or panic, or the end of the
-- model's fuel.
pub data Allocated : Type 0 where
  address : ℕ → Heap → Memory → Paging → Allocated
  failed : Allocated
  out_of_fuel : Allocated

-- The statistics.
abbrev pub counted : (size : ℕ) → Heap → Heap
counted size heap = record heap {
  alloc_count = plus heap.alloc_count 1;
  bytes_allocd = (heap.bytes_allocd + size) % u64_mod;
}

-- `heap_alloc`, with `create_hole_and_alloc`, which calls it again on the expanded heap.
unfoldable pub heap_alloc :
    (fuel : ℕ)
    → (fresh : ℕ → ℕ) → (size : ℕ) → (page_align : Bool) → Heap
    → Memory
    → Paging
    → Allocated
heap_alloc zero fresh size page_align heap mem m = out_of_fuel
heap_alloc (suc fuel) fresh size page_align heap mem m =
    let block_size = total_block_size size in
    elim (size == 0) [
      | true ↦ failed
      | false ↦ elim (get_smallest_hole mem heap block_size page_align) [
        | some hole ↦ elim (alloc_with_hole hole size page_align heap mem) [
          | none ↦ failed
          | some (header, heap', mem') ↦
              address (get_usable_address header) (counted (size_of mem' header) heap') mem' m
        ]
        | none ↦ elim (heap_expand fresh (plus (get_heap_size heap) block_size) heap m) [
          | none ↦ failed
          | some (expanded, m') ↦ elim (ltb (get_heap_size expanded) size) [
            | true ↦ failed
            | false ↦
                elim (create_or_update_block (get_last_block mem expanded) heap.end size available
                  expanded mem) [
                    | none ↦ failed
                    | some (header, heap', mem') ↦
                        heap_alloc fuel fresh size page_align heap' mem' m'
                  ]
          ]
        ]
      ]
    ]
