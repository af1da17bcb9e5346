-- ===== src/Mem/Pages/Lookup.antt =====
-- `page_get` of arch/i686/mem/paging.c gives each page of the address space its own place.
use mathlib.Core.Option.{some-injective}
use redshift.Base.{
  ℕ, ◌/◌, ◌%◌, ◌≡◌, ◌≢◌, Bool, true, false, none, some, ◌==◌, arith, ne→eqb, inl, inr, Bool-cases,
  ap, ◌∙◌, sym, eqb→eq, eqb_refl, subst,
}
use redshift.Mem.Align.{page_size}
use redshift.Mem.Pages.{page_entries, Directory, write, page_get}

-- No two entries of a directory lead to one table.
abbrev pub IsInjective : Directory → Type 0
IsInjective dir = (i j : ℕ) → dir.tables i ≢ 0 → dir.tables i ≡ dir.tables j → i ≡ j

-- The number of the page of an address.
abbrev pub page_number : ℕ → ℕ
page_number addr = addr / page_size

-- After a call with `create`, to which memory for a new table is not given at address 0, any call
-- for an address of the same page, with or without `create`, gives the same page and leaves the
-- directory alone.
pub page_get-again :
    (fresh other addr addr' : ℕ) (create : Bool) (dir : Directory)
    → fresh ≢ 0
    → page_number addr ≡ page_number addr'
    → page_get other addr' create (page_get fresh addr true dir).1
      ≡ ((page_get fresh addr true dir).0, (page_get fresh addr true dir).1)
unfolding page_get
page_get-again fresh other addr addr' create dir ne e =
    elim (Bool-cases (dir.tables (page_number addr / page_entries) == 0)) [
      | inl z ↦ rw (← e, z, eqb_refl (page_number addr / page_entries), ne→eqb fresh 0 ne)
      | inr z ↦ rw (← e, z, z)
    ]

get_mapped :
    (fresh addr : ℕ) (create : Bool) (dir : Directory)
    → (dir.tables (page_number addr / page_entries) == 0) ≡ false
    → page_get fresh addr create dir
      ≡ (some (dir.tables (page_number addr / page_entries), page_number addr % page_entries), dir)
unfolding page_get
get_mapped fresh addr create dir z = rw (z, page_get)

get_unmapped :
    (fresh addr : ℕ) (dir : Directory)
    → (dir.tables (page_number addr / page_entries) == 0) ≡ true
    → page_get fresh addr false dir ≡ (none, dir)
unfolding page_get
get_unmapped fresh addr dir z = rw (z, page_get)

get_made :
    (fresh addr : ℕ) (dir : Directory)
    → (dir.tables (page_number addr / page_entries) == 0) ≡ true
    → (page_get fresh addr true dir).1.tables
      ≡ write dir.tables (page_number addr / page_entries) fresh
unfolding page_get
get_made fresh addr dir z = rw (z, page_get)

write-injective :
    (f : ℕ → ℕ) (k v i j : ℕ)
    → ((m : ℕ) → f m ≢ v)
    → ((m n : ℕ) → f m ≢ 0 → f m ≡ f n → m ≡ n)
    → write f k v i ≢ 0
    → write f k v i ≡ write f k v j
    → i ≡ j
write-injective f k v i j unused inj h e = elim (Bool-cases (i == k)) [
  | inl a ↦ elim (Bool-cases (j == k)) [
    | inl b ↦ ground (arith, eqb→eq i k a, eqb→eq j k b)
    | inr b ↦ ground (arith, unused j)
  ]
  | inr a ↦ elim (Bool-cases (j == k)) [
    | inl b ↦ ground (arith, unused i)
    | inr b ↦ ground (arith, inj i j)
  ]
]

-- Where no two entries of a directory lead to one table, and no entry leads to the memory for a
-- new table, no two entries do so after a call.
page_get-IsInjective :
    (fresh addr : ℕ) (create : Bool) (dir : Directory)
    → ((i : ℕ) → dir.tables i ≢ fresh)
    → IsInjective dir
    → IsInjective (page_get fresh addr create dir).1
page_get-IsInjective fresh addr create dir unused inj =
    elim (Bool-cases (dir.tables (page_number addr / page_entries) == 0)) [
      | inr z ↦ subst (λ r. IsInjective r.1) (sym (get_mapped fresh addr create dir z)) inj
      | inl z ↦ unmapped create z
    ]
  where
    unmapped :
        (create : Bool)
        → (dir.tables (page_number addr / page_entries) == 0) ≡ true
        → IsInjective (page_get fresh addr create dir).1
    unmapped false z = subst (λ r. IsInjective r.1) (sym (get_unmapped fresh addr dir z)) inj
    unmapped true z =
        subst (λ t. (i j : ℕ) → t i ≢ 0 → t i ≡ t j → i ≡ j) (sym (get_made fresh addr dir z))
          (λ i j. write-injective dir.tables (page_number addr / page_entries) fresh i j unused inj)

-- In a directory whose entries lead to different tables, two addresses that have tables get the
-- same page only if they have the same page number.
page_get-injective :
    (fresh addr addr' : ℕ) (dir : Directory)
    → IsInjective dir
    → dir.tables (page_number addr / page_entries) ≢ 0
    → dir.tables (page_number addr' / page_entries) ≢ 0
    → (page_get fresh addr false dir).0 ≡ (page_get fresh addr' false dir).0
    → page_number addr ≡ page_number addr'
page_get-injective fresh addr addr' dir inj m m' e =
    let p = some-injective _ _ (
      sym (
        ap (λ r. r.0)
          (get_mapped fresh addr false dir
            (ne→eqb (dir.tables (page_number addr / page_entries)) 0 m)))
      ∙ e
      ∙ ap (λ r. r.0)
          (get_mapped fresh addr' false dir
            (ne→eqb (dir.tables (page_number addr' / page_entries)) 0 m'))) in
    omega (
      arith,
      inj (page_number addr / page_entries) (page_number addr' / page_entries) m (ap (λ r. r.0) p),
      ap (λ r. r.1) p,
    )
