-- ===== src/Mem/Frames.antt =====
-- The frame bitmap of arch/i686/mem/paging.c, and the pages that take frames from it.
pub mod Bitmap
pub mod Search
pub mod Alloc
use Prim.Native.Nat.{bit_and, bit_or}
use redshift.Base.{
  ℕ, zero, suc, ◌+◌, ◌-◌, ◌*◌, ◌/◌, ◌%◌, ◌^◌, ◌≤◌, ◌<◌, Bool, true, false, Option, none, some, List,
  [], ◌∷◌, ltb, leb, ◌==◌, if◌then◌else◌, get_or, set, not,
}
use redshift.Base.Word.{u32_mod, test_flag}
use redshift.Mem.Align.{page_size}

-- `struct page`
pub record Page : Type 0 where
  pub present : ℕ
  pub rw : ℕ
  pub user : ℕ
  pub accessed : ℕ
  pub written : ℕ
  pub reserved : ℕ
  pub frame : ℕ

-- The file's `frames` and `frames_count`, and the interrupt flag. A write outside the array is not
-- modelled: it leaves the list as it is.
pub record Frames : Type 0 where
  pub words : List ℕ
  pub count : ℕ
  pub interrupts : Bool

-- `page_flags_t`
abbrev pub page_present : ℕ
page_present = 1

abbrev pub page_user_mode : ℕ
page_user_mode = 2

abbrev pub page_writeable : ℕ
page_writeable = 4

-- `BIT_INDEX` and `BIT_OFFSET`
abbrev pub bit_index : ℕ → ℕ
bit_index a = a / 32

abbrev pub bit_offset : ℕ → ℕ
bit_offset a = a % 32

-- `SET_BIT`, `CLEAR_BIT` and `TEST_BIT` of include/libk/kmacro.h on a 32-bit variable.
abbrev pub set_bit : ℕ → ℕ → ℕ
set_bit var pos = bit_or var (2 ^ pos)

abbrev pub clear_bit : ℕ → ℕ → ℕ
clear_bit var pos = bit_and var (2 ^ 32 - 1 - 2 ^ pos)

abbrev pub test_bit : ℕ → ℕ → Bool
test_bit var pos = not (bit_and var (2 ^ pos) == 0)

pub frame_set : ℕ → List ℕ → List ℕ
frame_set addr words =
    let frame = addr / page_size in
    set words (bit_index frame) (set_bit (get_or words (bit_index frame) 0) (bit_offset frame))

pub frame_clear : ℕ → List ℕ → List ℕ
frame_clear addr words =
    let frame = addr / page_size in
    set words (bit_index frame) (clear_bit (get_or words (bit_index frame) 0) (bit_offset frame))

-- The inner loop of `frame_get_first_free`, from bit `j` on for `n` bits.
pub first_clear : (n j word : ℕ) → Option ℕ
first_clear zero j word = none
first_clear (suc n) j word =
    let rest = first_clear n (j + 1) word in if test_bit word j then rest else some j

-- The outer loop, from word `i` on for `n` words.
pub first_free : (n i : ℕ) → List ℕ → ℕ
first_free zero i words = 0
first_free (suc n) i [] = 0
first_free (suc n) i (w ∷ ws) =
    let rest = first_free n (i + 1) ws in
    if w == 0xffff_ffff
    then rest
    else elim (first_clear 32 0 w) [ none ↦ rest | some j ↦ i * 4 * 8 + j ]

pub frame_get_first_free : Frames → ℕ
frame_get_first_free f = first_free (bit_index f.count) 0 f.words

-- `none` is the panic. The first way out does not restore the interrupt flag.
pub frame_alloc : Page → (flags : ℕ) → Frames → Option (Page × Frames)
frame_alloc page flags f =
    if page.frame == 0
    then (let i = frame_get_first_free f in
        if leb (u32_mod - 1) i
        then none
        else some (
          record page {
            present = if test_flag flags page_present then 1 else 0;
            rw = if test_flag flags page_writeable then 1 else 0;
            user = if test_flag flags page_user_mode then 1 else 0;
            frame = i % 2 ^ 20;
          },
          record f { words = frame_set (i * page_size % u32_mod) f.words },
        ))
    else some (page, record f { interrupts = false })

pub frame_free : Page → Frames → Page × Frames
frame_free page f =
    if page.frame == 0
    then (page, record f { interrupts = false })
    else (record page { frame = 0 }, record f { words = frame_clear page.frame f.words })

-- The bytes that `paging_init` allocates for the bitmap, and clears.
pub bitmap_bytes : (frames_count : ℕ) → ℕ
bitmap_bytes frames_count = bit_index frames_count
