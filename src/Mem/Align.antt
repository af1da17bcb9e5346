-- ===== src/Mem/Align.antt =====
-- The alignment macros of include/arch/i686/redshift/mem/common.h, on 32-bit addresses.
pub mod Rounding
use Prim.Native.Nat.{bit_and}
use redshift.Base.{ℕ, ◌+◌, ◌-◌, ◌%◌, ◌<◌, Bool, leb, ◌==◌, if◌then◌else◌}
use redshift.Base.Word.{u32_mod}

-- `PAGE_SIZE`
abbrev pub page_size : ℕ
page_size = 0x1000

-- `ALIGN_MASK`: ~(alignment - 1) as a 32-bit number.
abbrev pub align_mask : ℕ → ℕ
align_mask alignment = u32_mod - alignment

-- `IS_ALIGNED`
abbrev pub is_aligned : ℕ → ℕ → Bool
is_aligned x alignment = bit_and x (align_mask alignment) == 0

-- `ALIGNED_ADDR`
abbrev pub aligned_addr : ℕ → ℕ → ℕ
aligned_addr x alignment = (bit_and x (align_mask alignment) + alignment) % u32_mod

-- `MAKE_ALIGNED`, as the new value of its argument.
pub make_aligned : ℕ → ℕ → ℕ
make_aligned x alignment = if is_aligned x alignment then x else aligned_addr x alignment

-- `MAKE_PAGE_ALIGNED`
unfoldable pub make_page_aligned : ℕ → ℕ
make_page_aligned x = make_aligned x page_size

-- `MAKE_ALLOC_ALIGNED`
unfoldable pub make_alloc_aligned : ℕ → ℕ → ℕ
make_alloc_aligned x size =
    if leb 16 size
    then make_aligned x 16
    else if leb 4 size
    then make_aligned x 4
    else if leb 2 size
    then make_aligned x 2
    else x
