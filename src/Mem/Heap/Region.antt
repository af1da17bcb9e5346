-- ===== src/Mem/Heap/Region.antt =====
-- arch/i686/mem/heap.c: the memory of the kernel heap, and its creation; src/kernel/kmalloc.c.
use redshift.Base.{
  ℕ, zero, suc, ◌+◌, ◌-◌, ◌%◌, ◌&&◌, ◌||◌, Bool, true, Option, none, some, List, [], ◌∷◌, ltb, leb,
  ◌==◌, if◌then◌else◌,
}
use redshift.Base.Word.{u32_mod, u64_mod}
use redshift.Libk.String.{Memory}
use redshift.Boot.MemoryMap.{Region, MemoryInfo}
use redshift.Mem.Align.{make_page_aligned}
use redshift.Mem.Heap.Blocks.{Heap}
use redshift.Mem.Heap.Growth.{Paging}
use redshift.Mem.Heap.Holes.{create_heap}
use redshift.Mem.Heap.Allocation.{Allocated, failed, heap_alloc}
use redshift.Mem.Heap.Freeing.{Freed, heap_free}

-- `MEMORY_TYPE_AVAILABLE`
abbrev pub type_available : ℕ
type_available = 1

-- The address in one region, where the heap fits there. `heap_addr` is the variable of the static
-- allocator.
unfoldable pub place_in : (heap_addr size : ℕ) → Region → Option ℕ
place_in heap_addr size r =
    let start =
      if ltb r.start heap_addr && leb heap_addr r.end then heap_addr else r.start % u32_mod in
    let address = make_page_aligned start in
    if ltb ((r.end + u64_mod - r.start) % u64_mod) size
    then none
    else if r.type_is == type_available
    then (if leb (address + size) r.end then some address else none)
    else none

-- What the search comes to: the address and the new `heap_addr`, a read of `region->next` where
-- `region` is NULL, or the panic or a failed assertion.
pub data Placing : Type 0 where
  placed : (address heap_addr : ℕ) → Placing
  null_read : Placing
  panics : Placing

-- `while ((region = region->next) != NULL);` behind the loop, from the node that it stopped at.
abbrev search_ends : List Region → Placing
search_ends [] = null_read
search_ends (r ∷ map) = panics

-- The loop over the first `n` regions of the map.
unfoldable pub find_region : (heap_addr size n : ℕ) → List Region → Placing
find_region heap_addr size zero map = search_ends map
find_region heap_addr size (suc n) [] = panics
find_region heap_addr size (suc n) (r ∷ map) =
    let rest = find_region heap_addr size n map in
    elim (place_in heap_addr size r) [
      | none ↦ rest
      | some address ↦ placed address ((address + size) % u32_mod)
    ]

unfoldable pub get_heap_region : (heap_addr size : ℕ) → MemoryInfo → Placing
get_heap_region heap_addr size info =
    if size == 0 || info.size_map == 0
    then panics
    else find_region heap_addr size info.size_map info.map

-- Which functions the pointers `kmalloc` and `kfree` lead to.
pub data Allocator : Type 0 where
  pre_init : Allocator
  real : Allocator

abbrev pub enable_kmalloc : Allocator → Allocator
enable_kmalloc k = real

-- A call of `kmalloc` or `kfree`; both panic before the heap is there.
unfoldable pub kmalloc :
    (fuel : ℕ) → Allocator → (fresh : ℕ → ℕ) → (size : ℕ) → Heap → Memory → Paging → Allocated
kmalloc fuel pre_init fresh size heap mem m = failed
kmalloc fuel real fresh size heap mem m = heap_alloc fuel fresh size true heap mem m

unfoldable pub kfree : Allocator → (ptr : ℕ) → Heap → Memory → Paging → Option Freed
kfree pre_init ptr heap mem m = none
kfree real ptr heap mem m = heap_free ptr heap mem m

-- `kextern_dynamic_allocate` and `kextern_static_allocate` of src/kernel/libk_extern.c while there is
-- no heap: 0 stands for the panic of `pre_init_kmalloc`, and `static_address` is what `static_alloc`
-- gives.
abbrev pub early_allocate : (static_address : ℕ → ℕ) → (dynamic : Bool) → ℕ → ℕ
early_allocate static_address dynamic size = if dynamic then 0 else static_address size

abbrev pub initial_heap_size : ℕ
initial_heap_size = 0x10_0000

-- `heap_init`: the heap, the memory and the new allocator, or none for a panic, a failed assertion or
-- a read through NULL.
unfoldable pub heap_init :
    (static_address : ℕ → ℕ)
    → (structure heap_addr : ℕ) → MemoryInfo
    → Memory
    → Option (Heap × Memory × Allocator)
heap_init static_address structure heap_addr info mem =
    elim (get_heap_region heap_addr initial_heap_size info) [
      | panics ↦ none
      | null_read ↦ none
      | placed start heap_addr' ↦
          if leb (u32_mod - 1 - initial_heap_size) start
          then none
          else elim (create_heap (early_allocate static_address) structure start
              (start + initial_heap_size) initial_heap_size 2 mem) [
                | none ↦ none
                | some (heap, mem') ↦ some (heap, mem', enable_kmalloc pre_init)
              ]
    ]
