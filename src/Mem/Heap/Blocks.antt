-- ===== src/Mem/Heap/Blocks.antt =====
-- arch/i686/mem/heap.c: the heap, and the headers and footers of its blocks.
-- `struct blockheader` has its magic number at 0, the flags at 4 and the size at 8 and `struct
-- blockfooter` its magic number at 0 and the header at 4; both are 16 bytes long. The interrupt flag,
-- which every function of the file restores, and the messages are left out.
use redshift.Base.{ℕ, ◌+◌, ◌-◌, ◌*◌, ◌%◌, ltb}
use redshift.Base.Word.{u32_mod}
use redshift.Libk.String.{Memory}
use redshift.Libk.Memory.{load, store, kmemory_fill8}
use redshift.Libk.SortedArray.{Array, Predicate}

-- `struct heap`, with the sorted array that its `blocklist` points to.
pub record Heap : Type 0 where
  pub blocklist : Array
  pub start : ℕ
  pub end : ℕ
  pub max_size : ℕ
  pub alloc_count : ℕ
  pub free_count : ℕ
  pub bytes_allocd : ℕ
  pub flags : ℕ

abbrev pub blocklist_size : ℕ
blocklist_size = 0x2000

abbrev pub block_magic : ℕ
block_magic = 0x600D_B10C

abbrev pub minimum_heap_size : ℕ
minimum_heap_size = 0x8_0000

abbrev pub header_size : ℕ
header_size = 16

abbrev pub footer_size : ℕ
footer_size = 16

abbrev pub minimum_block_size : ℕ
minimum_block_size = 32

-- `block_flags_t`
abbrev pub allocated : ℕ
allocated = 0

abbrev pub available : ℕ
available = 1

-- Sums and differences of 32-bit numbers.
abbrev pub plus : ℕ → ℕ → ℕ
plus a b = (a + b) % u32_mod

abbrev pub minus : ℕ → ℕ → ℕ
minus a b = (a + u32_mod - b) % u32_mod

abbrev pub word : Memory → ℕ → ℕ
word mem a = load mem a 4

abbrev pub set_word : Memory → (a v : ℕ) → Memory
set_word mem a v = store mem a v 4

abbrev pub magic_of : Memory → ℕ → ℕ
magic_of mem block = word mem block

abbrev pub flags_of : Memory → (header : ℕ) → ℕ
flags_of mem header = word mem (header + 4)

abbrev pub size_of : Memory → (header : ℕ) → ℕ
size_of mem header = word mem (header + 8)

abbrev pub header_of : Memory → (footer : ℕ) → ℕ
header_of mem footer = word mem (footer + 4)

unfoldable pub get_heap_size : Heap → ℕ
get_heap_size heap = minus heap.end heap.start

unfoldable pub get_usable_address : (header : ℕ) → ℕ
get_usable_address header = plus header header_size

unfoldable pub get_footer_address : Memory → (header : ℕ) → ℕ
get_footer_address mem header = plus (get_usable_address header) (size_of mem header)

unfoldable pub get_footer_end : (footer : ℕ) → ℕ
get_footer_end footer = plus footer footer_size

unfoldable pub total_block_size : (alloc_size : ℕ) → ℕ
total_block_size alloc_size = plus minimum_block_size alloc_size

unfoldable pub usable_block_size : (total_size : ℕ) → ℕ
usable_block_size total_size = minus total_size minimum_block_size

unfoldable pub blockheader_ascending_predicate : Predicate
blockheader_ascending_predicate mem a b = ltb (size_of mem a) (size_of mem b)

unfoldable pub place_header : Memory → (address size flags : ℕ) → Memory
place_header mem address size flags =
    let cleared = kmemory_fill8 mem address 0 header_size in
    set_word (set_word (set_word cleared address block_magic) (address + 8) size) (address + 4)
      flags

-- `header + header->size` counts in headers.
unfoldable pub footer_place : Memory → (header : ℕ) → ℕ
footer_place mem header = plus header (header_size * size_of mem header)

unfoldable pub place_footer : Memory → (header : ℕ) → Memory
place_footer mem header =
    let footer = footer_place mem header in
    let cleared = kmemory_fill8 mem footer 0 footer_size in
    set_word (set_word cleared footer block_magic) (footer + 4) header
