-- ===== src/Mem/Static/Regions.antt =====
-- The regions that src/mem/static.c hands out: fresh, aligned, and apart from one another.
use mathlib.Core.Path.{ap₂}
use redshift.Base.{
  map, subst, ℕ, ◌+◌, ◌%◌, ◌≤◌, ◌<◌, ◌≡◌, ◌≢◌, refl, inl, inr, true, false, Option, some, List, [],
  ◌∷◌, All, Bool-cases, arith, ne→eqb, le→ltb,
}
use redshift.Base.Word.{u32_mod, test_flag}
use redshift.Mem.Align.{page_size, make_page_aligned, make_alloc_aligned}
use redshift.Mem.Align.Rounding.{
  make_page_aligned_lem, make_aligned_two, make_aligned_four, make_aligned_sixteen,
}
use redshift.Mem.Static.{Region, page_align, static_alloc_base, static_allocs}

make_page_aligned-bounds :
    (x : ℕ)
    → x + page_size < u32_mod
    → (x ≤ make_page_aligned x) × (make_page_aligned x ≤ x + page_size)
make_page_aligned-bounds x h = ground (arith, make_page_aligned_lem x h)

make_alloc_aligned-bounds :
    (x size : ℕ)
    → x + page_size < u32_mod
    → (x ≤ make_alloc_aligned x size) × (make_alloc_aligned x size ≤ x + page_size)
unfolding make_alloc_aligned
make_alloc_aligned-bounds x size h =
    ground (arith, make_aligned_two x, make_aligned_four x, make_aligned_sixteen x)

-- What a call gives, where the address space has room behind `heap_addr` for the region and a page.
pub record Fresh (heap_addr size flags : ℕ) (o : Option (Region × ℕ)) : Type 0 where
  pub region : Region
  pub next : ℕ
  pub gives : o ≡ some (region, next)
  pub sized : region.size ≡ size
  pub behind : heap_addr ≤ region.addr
  pub near : region.addr ≤ heap_addr + page_size
  pub ends : next ≡ region.addr + size
  pub paged :
      test_flag flags page_align ≡ true → page_size ≤ heap_addr → region.addr % page_size ≡ 0
  pub sixteen :
      test_flag flags page_align ≡ false → 16 ≤ size → 16 ≤ heap_addr → region.addr % 16 ≡ 0
  pub four : test_flag flags page_align ≡ false → 4 ≤ size → 16 ≤ heap_addr → region.addr % 4 ≡ 0

-- Where `heap_addr` lies behind the kernel and the region and a page more fit below 2 ^ 32, a call
-- for a positive size gives a region of that size that starts at most a page behind `heap_addr`,
-- and moves `heap_addr` to its end. The region starts a page if that was asked for, else at a
-- multiple of 16 for a size of 16 or more and of 4 for a size of 4 or more, provided that
-- `heap_addr` has reached one page, or 16 bytes.
static_alloc_base-Fresh :
    (kernel_end heap_addr size flags : ℕ)
    → kernel_end ≤ heap_addr
    → size ≢ 0
    → heap_addr + page_size + size < u32_mod
    → Fresh heap_addr size flags (static_alloc_base kernel_end heap_addr size flags)
unfolding static_alloc_base make_alloc_aligned
static_alloc_base-Fresh kernel_end heap_addr size flags k z room =
    elim (Bool-cases (test_flag flags page_align)) [
      | inl p ↦ record {
        region = record { addr = make_page_aligned heap_addr; size = size };
        next = make_page_aligned heap_addr + size;
        gives =
            rw (le→ltb heap_addr kernel_end k, ne→eqb size 0 z, p)
              (ground (arith, make_page_aligned-bounds heap_addr));
        sized = refl;
        behind = (make_page_aligned-bounds heap_addr (omega arith)).0;
        near = (make_page_aligned-bounds heap_addr (omega arith)).1;
        ends = refl;
        paged = λ t q. ground (arith, make_page_aligned_lem heap_addr);
        sixteen = λ t q r. ground arith;
        four = λ t q r. ground arith;
      }
      | inr p ↦ record {
        region = record { addr = make_alloc_aligned heap_addr size; size = size };
        next = make_alloc_aligned heap_addr size + size;
        gives =
            rw (le→ltb heap_addr kernel_end k, ne→eqb size 0 z, p)
              (ground (arith, make_alloc_aligned-bounds heap_addr size));
        sized = refl;
        behind = (make_alloc_aligned-bounds heap_addr size (omega arith)).0;
        near = (make_alloc_aligned-bounds heap_addr size (omega arith)).1;
        ends = refl;
        paged = λ t q. ground arith;
        sixteen = λ t q r. ground (arith, make_aligned_sixteen heap_addr);
        four = λ t q r. ground (arith, make_aligned_sixteen heap_addr, make_aligned_four heap_addr);
      }
    ]

-- Each region lies in the range, behind those before it.
abbrev Apart : (low : ℕ) → List Region → (high : ℕ) → Type 0
Apart low [] high = low ≤ high
Apart low (r ∷ rs) high = (low ≤ r.addr) × Apart (r.addr + r.size) rs high

abbrev pub InRange : (low high : ℕ) → Region → Type 0
InRange low high r = (low ≤ r.addr) × (r.addr + r.size ≤ high)

-- No region meets one that was handed out before it.
abbrev pub Disjoint : List Region → Type 0
Disjoint [] = Unit
Disjoint (r ∷ rs) = All (λ later. r.addr + r.size ≤ later.addr) rs × Disjoint rs

Apart-end : (low : ℕ) (rs : List Region) (high : ℕ) → Apart low rs high → low ≤ high
Apart-end low [] high a = a
Apart-end low (r ∷ rs) high a = omega (arith, Apart-end (r.addr + r.size) rs high a.1)

Apart-InRange :
    (low low' : ℕ) (rs : List Region) (high : ℕ)
    → low' ≤ low
    → Apart low rs high
    → All (InRange low' high) rs
Apart-InRange low low' [] high h a = tt
Apart-InRange low low' (r ∷ rs) high h a = (
  (omega arith, Apart-end (r.addr + r.size) rs high a.1),
  Apart-InRange (r.addr + r.size) low' rs high (omega arith) a.1,
)

Apart-later :
    (low low' : ℕ) (rs : List Region) (high : ℕ)
    → low' ≤ low
    → Apart low rs high
    → All (λ later. low' ≤ later.addr) rs
Apart-later low low' [] high h a = tt
Apart-later low low' (r ∷ rs) high h a =
    (omega arith, Apart-later (r.addr + r.size) low' rs high (omega arith) a.1)

Apart-Disjoint : (low : ℕ) (rs : List Region) (high : ℕ) → Apart low rs high → Disjoint rs
Apart-Disjoint low [] high a = tt
Apart-Disjoint low (r ∷ rs) high a = (
  Apart-later (r.addr + r.size) (r.addr + r.size) rs high (omega arith) a.1,
  Apart-Disjoint (r.addr + r.size) rs high a.1,
)

-- What the calls need at most.
abbrev pub needed : List (ℕ × ℕ) → ℕ
needed [] = 0
needed ((size, flags) ∷ rest) = size + page_size + needed rest

static_allocs_step :
    (k h size flags : ℕ) (rest : List (ℕ × ℕ)) (r : Region) (next : ℕ) (rs : List Region)
    (final : ℕ)
    → static_alloc_base k h size flags ≡ some (r, next)
    → static_allocs k next rest ≡ some (rs, final)
    → static_allocs k h ((size, flags) ∷ rest) ≡ some (r ∷ rs, final)
unfolding static_allocs
static_allocs_step k h size flags rest r next rs final e f =
    rw (e, static_allocs) (rw (f, static_allocs))

static_allocs-Apart :
    (kernel_end heap_addr : ℕ) (calls : List (ℕ × ℕ))
    → kernel_end ≤ heap_addr
    → All (λ c. c.0 ≢ 0) calls
    → heap_addr + needed calls < u32_mod
    → (rs : List Region) × (final : ℕ) × (static_allocs kernel_end heap_addr calls
        ≡ some (rs, final))
      × Apart heap_addr rs final
      × (map (λ r. r.size) rs ≡ map (λ c. c.0) calls)
unfolding static_allocs
static_allocs-Apart kernel_end heap_addr [] k z room = ([], heap_addr, refl, omega arith, refl)
static_allocs-Apart kernel_end heap_addr ((size, flags) ∷ rest) k z room =
    let f = static_alloc_base-Fresh kernel_end heap_addr size flags k z.0 (omega arith) in
    let (rs, final, e, a, m) =
      static_allocs-Apart kernel_end f.next rest (omega (arith, f.behind, f.ends)) z.1
        (omega (arith, f.near, f.ends)) in
    (
      f.region ∷ rs,
      final,
      static_allocs_step kernel_end heap_addr size flags rest f.region f.next rs final f.gives e,
      (f.behind, subst (λ x. Apart x rs final) (omega (arith, f.ends, f.sized)) a),
      ap₂ ◌∷◌ f.sized m,
    )

-- A sequence of calls for positive sizes, with room for them and a page each below 2 ^ 32, succeeds:
-- it gives a region of each size asked for, in order, all of them between the first `heap_addr`
-- and the last, and no two of them meet.
pub static_allocs-Disjoint :
    (kernel_end heap_addr : ℕ) (calls : List (ℕ × ℕ))
    → kernel_end ≤ heap_addr
    → All (λ c. c.0 ≢ 0) calls
    → heap_addr + needed calls < u32_mod
    → (rs : List Region) × (final : ℕ) × (static_allocs kernel_end heap_addr calls
        ≡ some (rs, final))
      × (map (λ r. r.size) rs ≡ map (λ c. c.0) calls)
      × All (InRange heap_addr final) rs
      × Disjoint rs
static_allocs-Disjoint kernel_end heap_addr calls k z room =
    let (rs, final, e, a, m) = static_allocs-Apart kernel_end heap_addr calls k z room in
    (
      rs,
      final,
      e,
      m,
      Apart-InRange heap_addr heap_addr rs final (omega arith) a,
      Apart-Disjoint heap_addr rs final a,
    )
