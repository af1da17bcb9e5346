-- ===== src/Examples/Heaps.antt =====
-- The theorems on arch/i686/mem/heap.c at a heap of one hole.
use redshift.Base.{◌≤◌, ◌≡◌, refl, subst, false, true, none, [], ◌∷◌, arith}
use redshift.Libk.String.{Memory}
use redshift.Libk.Memory.{load, store}
use redshift.Boot.MemoryMap.{MemoryInfo}
use redshift.Mem.Heap.Blocks.{Heap, size_of, set_word, place_header, place_footer}
use redshift.Mem.Heap.Holes.{get_smallest_hole}
use redshift.Mem.Heap.Region.{heap_init}
use redshift.Mem.Heap.BestFit.{BestFit, IsAscending, size_at, get_smallest_hole-BestFit}
use redshift.Mem.Heap.Headers.{
  IsHeader, IsMisplaced, place_header-IsHeader, place_footer-IsMisplaced,
}
use redshift.Mem.Heap.Placement.{heap_init-none}
use redshift.Examples.Bytes.{no_bytes}

-- The list lies at 0x1000, and the hole of 4096 bytes at 0x1_0000.
abbrev heap_memory : Memory
heap_memory = set_word (set_word no_bytes 0x1000 0x1_0000) 0x1_0008 4096

abbrev one_hole : Heap
one_hole = record {
  blocklist = record { elements = 0x1000; freeable = true; count = 1; capacity = 8192 };
  start = 0x9000;
  end = 0x2_0000;
  max_size = 0x10_0000;
  alloc_count = 0;
  free_count = 0;
  bytes_allocd = 0;
  flags = 2;
}

hole_size : size_of heap_memory 0x1_0000 ≡ 4096
unfolding load store
hole_size = refl

one_hole-IsAscending : IsAscending heap_memory one_hole.blocklist
one_hole-IsAscending j k l h =
    let e : j ≡ k = omega arith in
    subst (λ i. size_at heap_memory one_hole.blocklist j ≤ size_at heap_memory one_hole.blocklist i)
      e (omega arith)

get_smallest_hole-BestFit_example :
    BestFit heap_memory one_hole.blocklist 100 (get_smallest_hole heap_memory one_hole 100 false)
get_smallest_hole-BestFit_example =
    get_smallest_hole-BestFit heap_memory one_hole 100 one_hole-IsAscending

place_header-IsHeader_example : IsHeader no_bytes (place_header no_bytes 0x1000 64 1) 0x1000 64 1
place_header-IsHeader_example =
    place_header-IsHeader no_bytes 0x1000 64 1 refl (omega arith) (omega arith)

place_footer-IsMisplaced_example :
    IsMisplaced heap_memory (place_footer heap_memory 0x1_0000) 0x1_0000
place_footer-IsMisplaced_example =
    place_footer-IsMisplaced heap_memory 0x1_0000 (omega arith) (omega (arith, hole_size))
      (omega (arith, hole_size))

-- 127 MB of memory from 1 MB on.
abbrev one_region : MemoryInfo
one_region = record {
  size_lower = 640;
  size_upper = 130048;
  map = record { type_is = 1; start = 0x10_0000; end = 0x7ff_ffff } ∷ [];
  size_map = 1;
}

heap_init-none_example : heap_init (λ n. 0x20_0000) 0x20_0000 0x20_0000 one_region no_bytes ≡ none
heap_init-none_example = heap_init-none (λ n. 0x20_0000) 0x20_0000 0x20_0000 one_region no_bytes
