-- ===== src/Mem/Heap/BestFit.antt =====
-- `get_smallest_hole` of arch/i686/mem/heap.c finds the best fit.
use redshift.Base.{
  ℕ, zero, suc, ◌+◌, ◌≤◌, ◌<◌, ◌≡◌, refl, sym, subst, Bool, true, false, Option, none, some, inl,
  inr, arith, ltb, Bool-cases, lt→ltb, ◌==◌, if◌then◌else◌,
}
use redshift.Libk.String.{Memory}
use redshift.Libk.SortedArray.{Array, element, ksorted_array_get}
use redshift.Mem.Heap.Blocks.{Heap, size_of}
use redshift.Mem.Heap.Holes.{suffices, smallest_hole, get_smallest_hole}

-- The size of the block at an index of the list.
abbrev pub size_at : Memory → Array → ℕ → ℕ
size_at mem list j = size_of mem (element mem list j)

-- The first block, of `n` from index `i` on, that passes the test.
abbrev FirstFit : (fits : ℕ → Bool) → (i n : ℕ) → Option ℕ → Type 0
FirstFit fits i n none = (j : ℕ) → i ≤ j → j < i + n → fits j ≡ false
FirstFit fits i n (some r) =
    (i ≤ r) × (r < i + n) × (fits r ≡ true) × ((j : ℕ) → i ≤ j → j < r → fits j ≡ false)

later :
    (fits : ℕ → Bool) (i n : ℕ) (r : Option ℕ)
    → fits i ≡ false
    → FirstFit fits (suc i) n r
    → FirstFit fits i (suc n) r
later fits i n none misfit f = λ j l h. elim (Bool-cases (j == i)) [
  | inl e ↦ ground (arith, misfit)
  | inr e ↦ f j (ground arith) (omega arith)
]
later fits i n (some r) misfit (l, h, fit, f) = (
  omega arith,
  omega arith,
  fit,
  λ j l h. elim (Bool-cases (j == i)) [
    | inl e ↦ ground (arith, misfit)
    | inr e ↦ f j (ground arith) h
  ],
)

module _ (mem : Memory) (list : Array) (size : ℕ) (aligned : Bool) where
  abbrev fits_at : ℕ → Bool
  fits_at j = suffices mem size aligned (element mem list j)

  hole_here :
      (i n : ℕ)
      → i < list.count
      → smallest_hole mem list size aligned i (suc n)
        ≡ (if fits_at i then some i else smallest_hole mem list size aligned (suc i) n)
  unfolding smallest_hole ksorted_array_get
  hole_here i n l = rw (smallest_hole, lt→ltb i list.count l) refl

  smallest_hole-FirstFit :
      (i n : ℕ)
      → i + n ≤ list.count
      → FirstFit fits_at i n (smallest_hole mem list size aligned i n)
  unfolding smallest_hole
  smallest_hole-FirstFit i zero l = λ j a b. absurd (omega arith)
  smallest_hole-FirstFit i (suc n) l =
      subst (FirstFit fits_at i (suc n)) (sym (hole_here i n (omega arith)))
        (elim (Bool-cases (fits_at i)) [
          | inl e ↦ rw e (omega arith, omega arith, e, λ j a b. absurd (omega arith))
          | inr e ↦
              subst
                (λ b.
                  FirstFit fits_at i (suc n)
                    (if b then some i else smallest_hole mem list size aligned (suc i) n))
                (sym e) (later fits_at i n _ e (smallest_hole-FirstFit (suc i) n (omega arith)))
        ])

-- The best fit of a list: a block that is large enough, and no larger than any other that is; none
-- when every block is too small.
abbrev pub BestFit : Memory → Array → (size : ℕ) → Option ℕ → Type 0
BestFit mem list size none = (j : ℕ) → j < list.count → size_at mem list j < size
BestFit mem list size (some r) =
    (r < list.count)
    × (size ≤ size_at mem list r)
    × ((j : ℕ)
        → j < list.count
        → size ≤ size_at mem list j
        → size_at mem list r ≤ size_at mem list j)

-- The list is in the order of its predicate.
abbrev pub IsAscending : Memory → Array → Type 0
IsAscending mem list = (j k : ℕ) → j ≤ k → k < list.count → size_at mem list j ≤ size_at mem list k

too_small :
    (mem : Memory) (size header : ℕ)
    → suffices mem size false header ≡ false
    → size_of mem header < size
unfolding suffices
too_small mem size header e = ground arith

large_enough :
    (mem : Memory) (size header : ℕ)
    → suffices mem size false header ≡ true
    → size ≤ size_of mem header
unfolding suffices
large_enough mem size header e = ground arith

best :
    (mem : Memory) (list : Array) (size : ℕ) (r : Option ℕ)
    → IsAscending mem list
    → FirstFit (fits_at mem list size false) 0 list.count r
    → BestFit mem list size r
best mem list size none a f =
    λ j l. too_small mem size (element mem list j) (f j (omega arith) (omega arith))
best mem list size (some r) a (l, h, fit, f) = (
  omega arith,
  large_enough mem size (element mem list r) fit,
  λ j b enough. elim (Bool-cases (ltb j r)) [
    | inl e ↦ absurd (
        omega (
          arith,
          enough,
          too_small mem size (element mem list j) (f j (omega arith) (ground arith)),
        ))
    | inr e ↦ a r j (ground arith) b
  ],
)

-- On a list of blocks that is in ascending order of size, as the sorted array is meant to keep it,
-- the search for a hole without alignment finds the best fit, or none if every block is too small. It
-- does not ask whether the block is a hole.
pub get_smallest_hole-BestFit :
    (mem : Memory) (heap : Heap) (size : ℕ)
    → IsAscending mem heap.blocklist
    → BestFit mem heap.blocklist size (get_smallest_hole mem heap size false)
unfolding get_smallest_hole
get_smallest_hole-BestFit mem heap size a =
    best mem heap.blocklist size _ a
      (smallest_hole-FirstFit mem heap.blocklist size false 0 heap.blocklist.count (omega arith))
