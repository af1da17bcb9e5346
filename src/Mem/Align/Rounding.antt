-- ===== src/Mem/Align/Rounding.antt =====
-- What the alignment macros of include/arch/i686/redshift/mem/common.h compute.
use Prim.Native.Nat.{bit_and}
use redshift.Base.{
  ℕ, refl, ◌+◌, ◌-◌, ◌*◌, ◌/◌, ◌%◌, ◌^◌, ◌<◌, ◌≡◌, ◌∙◌, ap, ltb, ◌==◌, if◌then◌else◌, arith,
}
use native.Mathlib.Nat.{mod-eq_of_lt, le_trans}
use redshift.Base.Word.{u32_mod}
use redshift.Base.Bits.{bit_and-digit, bit_and-ones}
use redshift.Mem.Align.{page_size, align_mask, make_aligned, make_page_aligned}

mask_two : (x : ℕ) → x < u32_mod → bit_and x (align_mask 2) ≡ x - x % 2
mask_two x h = omega (arith, bit_and-digit x (align_mask 2), bit_and-ones 31 (x / 2) (omega arith))

mask_four : (x : ℕ) → x < u32_mod → bit_and x (align_mask 4) ≡ x - x % 4
mask_four x h = omega (
  arith,
  bit_and-digit x (align_mask 4),
  bit_and-digit (x / 2) (2 ^ 32 / 2 - 2),
  bit_and-ones 30 (x / 2 / 2) (omega arith),
)

mask_sixteen : (x : ℕ) → x < u32_mod → bit_and x (align_mask 16) ≡ x - x % 16
mask_sixteen x h = omega (
  arith,
  bit_and-digit x (2 ^ 32 - 16),
  bit_and-digit (x / 2) (2 ^ 31 - 8),
  bit_and-digit (x / 2 / 2) (2 ^ 30 - 4),
  bit_and-digit (x / 2 / 2 / 2) (2 ^ 29 - 2),
  bit_and-ones 28 (x / 2 / 2 / 2 / 2) (omega arith),
)

-- An even mask has no lowest digit.
bit_and-even : (x m n : ℕ) → m * 2 ≡ n → bit_and x n ≡ bit_and (x / 2) m * 2
bit_and-even x m n e =
    let half : n / 2 ≡ m = omega arith in
    let low : n % 2 ≡ 0 = omega arith in omega (arith, bit_and-digit x n, ap (bit_and (x / 2)) half)

mask_page : (x : ℕ) → x < u32_mod → bit_and x (align_mask page_size) ≡ x - x % 4096
mask_page x h = omega (
  arith,
  bit_and-even (x) 2147481600 4294963200 refl,
  bit_and-even (x / 2) 1073740800 2147481600 refl,
  bit_and-even (x / 2 / 2) 536870400 1073740800 refl,
  bit_and-even (x / 2 / 2 / 2) 268435200 536870400 refl,
  bit_and-even (x / 2 / 2 / 2 / 2) 134217600 268435200 refl,
  bit_and-even (x / 2 / 2 / 2 / 2 / 2) 67108800 134217600 refl,
  bit_and-even (x / 2 / 2 / 2 / 2 / 2 / 2) 33554400 67108800 refl,
  bit_and-even (x / 2 / 2 / 2 / 2 / 2 / 2 / 2) 16777200 33554400 refl,
  bit_and-even (x / 2 / 2 / 2 / 2 / 2 / 2 / 2 / 2) 8388600 16777200 refl,
  bit_and-even (x / 2 / 2 / 2 / 2 / 2 / 2 / 2 / 2 / 2) 4194300 8388600 refl,
  bit_and-even (x / 2 / 2 / 2 / 2 / 2 / 2 / 2 / 2 / 2 / 2) 2097150 4194300 refl,
  bit_and-even (x / 2 / 2 / 2 / 2 / 2 / 2 / 2 / 2 / 2 / 2 / 2) 1048575 2097150 refl,
  bit_and-ones 20 (x / 2 / 2 / 2 / 2 / 2 / 2 / 2 / 2 / 2 / 2 / 2 / 2) (omega arith),
)

-- The test passes below the alignment only, and any other address moves to the next multiple, which
-- is a further one where the address is a multiple itself.
make_aligned_by_mask :
    (x a : ℕ)
    → 0 < a
    → x + a < u32_mod
    → bit_and x (align_mask a) ≡ x - x % a
    → ((x - x % a) == 0) ≡ ltb x a
    → make_aligned x a ≡ (if ltb x a then x else x - x % a + a)
unfolding make_aligned
make_aligned_by_mask x a pos small e t =
    let fits : x - x % a + a < u32_mod = le_trans (omega arith) small in
    rw (e, t, mod-eq_of_lt fits)

pub make_aligned_two :
    (x : ℕ) → x + 2 < u32_mod → make_aligned x 2 ≡ (if ltb x 2 then x else x - x % 2 + 2)
make_aligned_two x h =
    make_aligned_by_mask x 2 (omega arith) h (mask_two x (omega arith)) (ground arith)

pub make_aligned_four :
    (x : ℕ) → x + 4 < u32_mod → make_aligned x 4 ≡ (if ltb x 4 then x else x - x % 4 + 4)
make_aligned_four x h =
    make_aligned_by_mask x 4 (omega arith) h (mask_four x (omega arith)) (ground arith)

pub make_aligned_sixteen :
    (x : ℕ) → x + 16 < u32_mod → make_aligned x 16 ≡ (if ltb x 16 then x else x - x % 16 + 16)
make_aligned_sixteen x h =
    make_aligned_by_mask x 16 (omega arith) h (mask_sixteen x (omega arith)) (ground arith)

-- On addresses that are a page below the top of the address space, `MAKE_PAGE_ALIGNED` keeps an
-- address in the first page, and moves any other to the start of the next page, also an address
-- that starts a page already.
pub make_page_aligned_lem :
    (x : ℕ)
    → x + page_size < u32_mod
    → make_page_aligned x ≡ (if ltb x page_size then x else (x / page_size + 1) * page_size)
unfolding make_page_aligned
make_page_aligned_lem x h =
    make_aligned_by_mask x page_size (omega arith) h (mask_page x (omega arith)) (ground arith)
    ∙ ground arith
