-- ===== src/Mem/Heap/Placement.antt =====
-- Where `get_heap_region` of arch/i686/mem/heap.c puts the heap, and what `heap_init` comes to.
use redshift.Base.{
  ℕ, ◌+◌, ◌-◌, ◌%◌, ◌≤◌, ◌<◌, ◌⊎◌, ◌≡◌, inl, inr, refl, not, ◌||◌, none, List, ◌∷◌, ◌++◌, ltb, leb,
  ◌==◌, Bool-cases, All,
}
use redshift.Base.Word.{u32_mod, u64_mod}
use redshift.Libk.String.{Memory}
use redshift.Libk.SortedArray.{ksorted_array_place}
use redshift.Boot.MemoryMap.{Region, MemoryInfo}
use redshift.Mem.Align.{page_size, make_page_aligned}
use redshift.Mem.Heap.Blocks.{minus, blocklist_size}
use redshift.Mem.Heap.Holes.{create_heap}
use redshift.Mem.Heap.Region.{
  type_available, Placing, placed, null_read, panics, place_in, get_heap_region, early_allocate,
  initial_heap_size, heap_init,
}

-- The region that was taken, with those before it, in which the heap did not fit.
pub record Taken (heap_addr size a heap_addr' : ℕ) (map : List Region) : Type 0 where
  pub before : List Region
  pub region : Region
  pub behind : List Region
  pub split : map ≡ before ++ (region ∷ behind)
  pub passed : All (λ r. place_in heap_addr size r ≡ none) before
  pub is_available : region.type_is ≡ type_available
  pub large : size ≤ (region.end + u64_mod - region.start) % u64_mod
  pub behind_kernel :
      region.start < heap_addr → heap_addr ≤ region.end → a ≡ make_page_aligned heap_addr
  pub at_start :
      (heap_addr ≤ region.start) ⊎ (region.end < heap_addr)
      → a ≡ make_page_aligned (region.start % u32_mod)
  pub fits : a + size ≤ region.end
  pub moved : heap_addr' ≡ (a + size) % u32_mod

-- The outcome of the search: the first region where the heap fits is taken, or it fits in none and
-- the search reads through NULL.
abbrev pub Search : (heap_addr size : ℕ) → List Region → Placing → Type 0
Search heap_addr size map null_read = All (λ r. place_in heap_addr size r ≡ none) map
Search heap_addr size map panics = ⊥
Search heap_addr size map (placed a heap_addr') = Taken heap_addr size a heap_addr' map

place_fails :
    (static_address : ℕ → ℕ) (mem : Memory) (start : ℕ)
    → ksorted_array_place (early_allocate static_address) mem start blocklist_size 1 ≡ none
unfolding ksorted_array_place
place_fails static_address mem start = elim (Bool-cases (start == 0)) [
  | inl e ↦ rw e refl
  | inr e ↦ rw e refl
]

create_fails :
    (static_address : ℕ → ℕ) (structure start end max_size flags : ℕ) (mem : Memory)
    → create_heap (early_allocate static_address) structure start end max_size flags mem ≡ none
unfolding create_heap
create_fails static_address structure start end max_size flags mem =
    elim (Bool-cases (not (start % page_size == 0) || not (end % page_size == 0))) [
      | inl e ↦ rw (create_heap, e) refl
      | inr e ↦ elim (Bool-cases (ltb max_size (minus end start) || structure == 0)) [
        | inl e' ↦ rw (create_heap, e, e') refl
        | inr e' ↦ rw (create_heap, e, e', place_fails static_address mem start) refl
      ]
    ]

-- `heap_init` never gives a heap, whatever the memory map is: `create_heap` asks for a list of blocks
-- in dynamic memory, and `kmalloc` still panics then.
pub heap_init-none :
    (static_address : ℕ → ℕ) (structure heap_addr : ℕ) (info : MemoryInfo) (mem : Memory)
    → heap_init static_address structure heap_addr info mem ≡ none
unfolding heap_init
heap_init-none static_address structure heap_addr info mem =
    go (get_heap_region heap_addr initial_heap_size info) refl
  where
    go :
        (r : Placing)
        → get_heap_region heap_addr initial_heap_size info ≡ r
        → heap_init static_address structure heap_addr info mem ≡ none
    go panics e = rw (heap_init, e) refl
    go null_read e = rw (heap_init, e) refl
    go (placed start heap_addr') e =
        elim (Bool-cases (leb (u32_mod - 1 - initial_heap_size) start)) [
          | inl l ↦ rw (heap_init, e, l) refl
          | inr l ↦
              rw
                (
                  heap_init,
                  e,
                  l,
                  create_fails static_address structure start (start + initial_heap_size)
                      initial_heap_size 2 mem,
                )
                refl
        ]
