-- ===== src/Mem/Heap/Growth.antt =====
-- arch/i686/mem/heap.c: expanding and contracting the heap, page by page.
use Prim.Native.Nat.{bit_or}
use redshift.Base.{
  ℕ, zero, suc, ◌+◌, ◌-◌, ◌/◌, Option, none, some, ltb, leb, if◌then◌else◌, true, false,
}
use redshift.Base.Word.{test_flag}
use redshift.Mem.Align.{page_size, make_page_aligned}
use redshift.Mem.Frames.{
  Page, Frames, page_user_mode, page_writeable, page_present, frame_alloc, frame_free,
}
use redshift.Mem.Pages.{Directory, PagePtr, page_get, write}
use redshift.Mem.Heap.Blocks.{Heap, get_heap_size, minimum_heap_size, plus, minus}

-- `kernel_directory` and the frames.
pub record Paging : Type 0 where
  pub directory : Directory
  pub frames : Frames

-- Storing what became of a page where its pointer leads.
abbrev set_page : PagePtr → Page → Directory → Directory
set_page (table, i) page dir = record dir {
  memory = write dir.memory table (write (dir.memory table) i page);
}

abbrev page_at : PagePtr → Directory → Page
page_at (table, i) dir = dir.memory table i

unfoldable pub heap_flags_to_page_flags : Heap → (page_flags : ℕ) → ℕ
heap_flags_to_page_flags heap page_flags =
    let user = if test_flag heap.flags 1 then bit_or page_flags page_user_mode else page_flags in
    if test_flag heap.flags 2 then bit_or user page_writeable else user

-- `frame_alloc(page_get(addr, kernel_directory, true), page_flags)`; `fresh` gives the memory that a
-- new table for an address would get. `none` is a panic.
unfoldable pub map_page : (fresh : ℕ → ℕ) → (addr page_flags : ℕ) → Paging → Option Paging
map_page fresh addr page_flags m =
    let (pointer, dir) = page_get (fresh addr) addr true m.directory in
    elim pointer [
      | none ↦ none
      | some p ↦ elim (frame_alloc (page_at p dir) page_flags m.frames) [
        | none ↦ none
        | some (page, frames) ↦ some (record { directory = set_page p page dir; frames = frames })
      ]
    ]

-- `frame_free(page_get(addr, kernel_directory, false))`; `none` is the access through a null pointer.
unfoldable pub unmap_page : (addr : ℕ) → Paging → Option Paging
unmap_page addr m =
    let (pointer, dir) = page_get 0 addr false m.directory in
    elim pointer [
      | none ↦ none
      | some p ↦
          let (page, frames) = frame_free (page_at p dir) m.frames in
          some (record { directory = set_page p page dir; frames = frames })
    ]

-- How many steps of a page lead from `i` to `last` or beyond.
abbrev pub rounds : (i last : ℕ) → ℕ
rounds i last = (last - i + page_size - 1) / page_size

-- `for (i = old_size; i < new_size; i += PAGE_SIZE)`, of `n` rounds from `addr` on.
unfoldable pub expand_loop : (fresh : ℕ → ℕ) → (n addr page_flags : ℕ) → Paging → Option Paging
expand_loop fresh zero addr page_flags m = some m
expand_loop fresh (suc n) addr page_flags m = elim (map_page fresh addr page_flags m) [
  | none ↦ none
  | some m' ↦ expand_loop fresh n (plus addr page_size) page_flags m'
]

-- `none` is a failed assertion or a panic.
unfoldable pub heap_expand :
    (fresh : ℕ → ℕ) → (new_size : ℕ) → Heap → Paging → Option (Heap × Paging)
heap_expand fresh new_size heap m =
    let old_size = get_heap_size heap in
    let size = make_page_aligned new_size in
    if leb new_size old_size
    then none
    else if ltb heap.max_size size
    then none
    else elim (expand_loop fresh (rounds old_size size) (plus heap.start old_size)
        (heap_flags_to_page_flags heap page_present) m) [
          | none ↦ none
          | some m' ↦ some (record heap { end = plus heap.start size }, m')
        ]

-- `for (i = old_size - PAGE_SIZE; i > new_size; i -= PAGE_SIZE)`, of `n` rounds from `addr` down.
unfoldable pub contract_loop : (n addr : ℕ) → Paging → Option Paging
contract_loop zero addr m = some m
contract_loop (suc n) addr m = elim (unmap_page addr m) [
  | none ↦ none
  | some m' ↦ contract_loop n (minus addr page_size) m'
]

-- The new size, with the heap.
unfoldable pub heap_contract : (new_size : ℕ) → Heap → Paging → Option (ℕ × Heap × Paging)
heap_contract new_size heap m =
    let old_size = get_heap_size heap in
    let aligned = make_page_aligned new_size in
    let size = if ltb aligned minimum_heap_size then minimum_heap_size else aligned in
    let i = minus old_size page_size in
    if leb old_size new_size
    then none
    else elim (contract_loop (rounds size i) (plus heap.start i) m) [
      | none ↦ none
      | some m' ↦ some (size, record heap { end = plus heap.start size }, m')
    ]
