-- ===== src/Mem/Static.antt =====
-- src/mem/static.c: the allocator that only moves `heap_addr` on.
pub mod Regions
use redshift.Base.{
  ℕ, ◌+◌, ◌%◌, ◌≤◌, ◌<◌, Bool, true, false, ◌||◌, Option, none, some, List, [], ◌∷◌, ltb, leb, ◌==◌,
  max, if◌then◌else◌,
}
use redshift.Base.Word.{u32_mod, test_flag}
use redshift.Mem.Align.{make_page_aligned, make_alloc_aligned}

-- `alloc_flags_t`
abbrev pub size_align : ℕ
size_align = 0

abbrev pub page_align : ℕ
page_align = 1

-- The memory that a call hands out, which is also the physical address that it stores.
pub record Region : Type 0 where
  pub addr : ℕ
  pub size : ℕ

-- `static_init`: `kernel_end` is the linker's `__kernel_end__`.
pub static_init : (kernel_end modules_end : ℕ) → ℕ
static_init kernel_end modules_end = make_page_aligned (max kernel_end modules_end)

-- `static_alloc_base`: the region, and the new value of `heap_addr`. `none` is a failed assertion.
pub static_alloc_base : (kernel_end heap_addr size flags : ℕ) → Option (Region × ℕ)
static_alloc_base kernel_end heap_addr size flags =
    if ltb heap_addr kernel_end || size == 0
    then none
    else let addr =
        if test_flag flags page_align
        then make_page_aligned heap_addr
        else make_alloc_aligned heap_addr size in
      some (record { addr = addr; size = size }, (addr + size) % u32_mod)

-- `static_alloc`
pub static_alloc : (kernel_end heap_addr size : ℕ) → Option (Region × ℕ)
static_alloc kernel_end heap_addr size = static_alloc_base kernel_end heap_addr size size_align

-- A sequence of calls, each with its size and flags: the regions, in order, and the last value of
-- `heap_addr`.
pub static_allocs : (kernel_end heap_addr : ℕ) → List (ℕ × ℕ) → Option (List Region × ℕ)
static_allocs kernel_end heap_addr [] = some ([], heap_addr)
static_allocs kernel_end heap_addr ((size, flags) ∷ rest) =
    elim (static_alloc_base kernel_end heap_addr size flags) [
      | none ↦ none
      | some (r, heap_addr') ↦ elim (static_allocs kernel_end heap_addr' rest) [
        | none ↦ none
        | some (rs, final) ↦ some (r ∷ rs, final)
      ]
    ]
