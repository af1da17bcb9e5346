-- ===== src/Mem/Heap/Freeing.antt =====
-- arch/i686/mem/heap.c: freeing memory, and unifying holes.
use Prim.Native.Nat.{bit_or}
use redshift.Base.{
  ℕ, zero, suc, ◌+◌, ◌-◌, ◌%◌, ◌&&◌, ◌||◌, Bool, true, false, Option, none, some, ltb, leb, ◌==◌,
  if◌then◌else◌,
}
use redshift.Base.Word.{u64_mod, test_flag}
use redshift.Libk.String.{Memory}
use redshift.Libk.SortedArray.{Array, element, ksorted_array_count, ksorted_array_remove}
use redshift.Mem.Heap.Blocks.{
  Heap, plus, minus, magic_of, flags_of, size_of, header_of, set_word, get_heap_size,
  get_footer_address, get_footer_end, header_size, footer_size, available, block_magic,
}
use redshift.Mem.Heap.Growth.{Paging, heap_contract}
use redshift.Mem.Heap.Holes.{add_block}

-- `magic == BLOCK_MAGIC && TEST_FLAG(flags, BLOCK_FLAGS_AVAILABLE)`, the magic number of the header or
-- of the footer at `block`.
abbrev pub is_hole : Memory → (block header : ℕ) → Bool
is_hole mem block header =
    (magic_of mem block == block_magic) && test_flag (flags_of mem header) available

-- A header, a footer and the memory: what the functions that unify holes change.
pub record Unified : Type 0 where
  pub unified : Bool
  pub header : ℕ
  pub footer : ℕ
  pub blocklist : Array
  pub mem : Memory

unfoldable pub unify_left : (header footer : ℕ) → Array → Memory → Unified
unify_left header footer list mem =
    let test_footer = minus header footer_size in
    let left = header_of mem test_footer in
    let linked = set_word mem (footer + 4) left in
    if is_hole mem test_footer left
    then record {
      unified = true;
      header = left;
      footer = footer;
      blocklist = list;
      mem = set_word linked (left + 8) (plus (size_of linked left) (size_of mem header));
    }
    else record { unified = false; header = header; footer = footer; blocklist = list; mem = mem }

-- The loop that looks for a block, with `n` elements from `i` on.
unfoldable pub find_block : Memory → Array → (header i n : ℕ) → Option ℕ
find_block mem list header i zero = none
find_block mem list header i (suc n) =
    let rest = find_block mem list header (suc i) n in
    if element mem list i == header then some i else rest

unfoldable pub unify_right : (header footer : ℕ) → Array → Memory → Option Unified
unify_right header footer list mem =
    let right = plus footer footer_size in
    let sized = set_word mem (header + 8) (plus (size_of mem header) (size_of mem right)) in
    let footer' = get_footer_address sized right in
    let mem' = set_word (set_word sized footer' block_magic) (footer' + 4) header in
    elim (is_hole mem right right) [
      | false ↦ some (record {
        unified = false;
        header = header;
        footer = footer;
        blocklist = list;
        mem = mem;
      })
      | true ↦ elim (find_block mem' list right 0 (ksorted_array_count list)) [
        | none ↦ none
        | some i ↦ elim (ksorted_array_remove mem' list i) [
          | none ↦ none
          | some (list', mem'') ↦ some (record {
            unified = true;
            header = header;
            footer = footer';
            blocklist = list';
            mem = mem'';
          })
        ]
      ]
    ]

-- Whether it unified to the left; the left side is tried first.
unfoldable pub unify_holes : (header footer : ℕ) → Array → Memory → Option Unified
unify_holes header footer list mem =
    let left = unify_left header footer list mem in
    elim (unify_right left.header left.footer left.blocklist left.mem) [
      | none ↦ none
      | some right ↦ some (record right { unified = left.unified })
    ]

-- The heap, the memory and the pages; `none` is a failed assertion or an access through a null
-- pointer.
abbrev pub Freed : Type 0
Freed = Heap × Memory × Paging

-- The current block is resized, or taken from the list, after the heap has lost `lost` bytes.
unfoldable pub shrink_block : (lost : ℕ) → Unified → Heap → Option (Heap × Memory)
shrink_block lost u heap =
    let size = minus (size_of u.mem u.header) lost in
    let footer = minus (plus u.footer size) footer_size in
    let sized = set_word u.mem (u.header + 8) size in
    if size == 0
    then elim (find_block u.mem u.blocklist u.header 0 (ksorted_array_count u.blocklist)) [
      | none ↦ some (heap, u.mem)
      | some i ↦ elim (ksorted_array_remove u.mem u.blocklist i) [
        | none ↦ none
        | some (list, mem) ↦ some (record heap { blocklist = list }, mem)
      ]
    ]
    else some (heap, set_word (set_word sized footer block_magic) (footer + 4) u.header)

unfoldable pub contract_at_end : Unified → Heap → Paging → Option Freed
contract_at_end u heap m =
    let old_len = get_heap_size heap in
    elim (leb heap.end (get_footer_end u.footer)) [
      | false ↦ some (heap, u.mem, m)
      | true ↦ elim (heap_contract (minus u.header heap.start) heap m) [
        | none ↦ none
        | some (new_len, heap', m') ↦ elim (shrink_block (minus old_len new_len) u heap') [
          | none ↦ none
          | some (heap'', mem) ↦ some (heap'', mem, m')
        ]
      ]
    ]

-- The statistics, and the assertions on them.
unfoldable pub uncounted : (original_size : ℕ) → Freed → Option Freed
uncounted original_size (heap, mem, m) =
    let free_count = plus heap.free_count 1 in
    let bytes_allocd = (heap.bytes_allocd + u64_mod - original_size) % u64_mod in
    if ltb heap.alloc_count free_count || ltb (get_heap_size heap) bytes_allocd
    then none
    else some (record heap { free_count = free_count; bytes_allocd = bytes_allocd }, mem, m)

-- Where `heap_free` takes the footer of a block to be.
unfoldable pub freed_footer : Memory → (header : ℕ) → ℕ
freed_footer mem header = minus (plus header (size_of mem header)) footer_size

unfoldable pub heap_free : (ptr : ℕ) → Heap → Memory → Paging → Option Freed
heap_free ptr heap mem m =
    let header = minus ptr header_size in
    let footer = freed_footer mem header in
    let original_size = size_of mem header in
    let marked = set_word mem (header + 4) (bit_or (flags_of mem header) available) in
    let valid =
      (magic_of mem header == block_magic)
      && (magic_of mem footer == block_magic)
      && (header_of mem footer == header) in
    elim (ptr == 0) [
      | true ↦ some (heap, mem, m)
      | false ↦ elim (if valid then unify_holes header footer heap.blocklist marked else none) [
        | none ↦ none
        | some u ↦ elim (contract_at_end u (record heap { blocklist = u.blocklist }) m) [
          | none ↦ none
          | some (heap', mem', m') ↦ elim u.unified [
            | true ↦ uncounted original_size (heap', mem', m')
            | false ↦ elim (add_block u.header heap' mem') [
              | none ↦ none
              | some (added, heap'', mem'') ↦ uncounted original_size (heap'', mem'', m')
            ]
          ]
        ]
      ]
    ]
