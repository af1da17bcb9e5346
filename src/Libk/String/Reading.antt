-- ===== src/Libk/String/Reading.antt =====
-- The functions of libk/kstring.c that read strings.
use redshift.Base.{
  ℕ, zero, suc, ◌+◌, ◌≡◌, refl, inl, inr, List, [], ◌∷◌, ◌==◌, ◌++◌, ◌*◌, ◌%◌, Bool-cases, eqb_refl,
}
use redshift.Base.Word.{u32_mod}
use redshift.Libk.String.{kstring_compare, kstring_hash32, hash_loop, char_value}

compare_head :
    (c : ℕ) (s1 s2 : List ℕ) (n : ℕ)
    → kstring_compare s1 s2 n ≡ 0
    → kstring_compare (c ∷ s1) (c ∷ s2) (suc n) ≡ 0
unfolding kstring_compare
compare_head c s1 s2 n h = elim (Bool-cases (c == 0)) [
  | inl e ↦ rw e
  | inr e ↦ rw (e, eqb_refl c) h
]

-- A string compares as equal to any string that it begins, in either order: the comparison does not
-- look past the end of the shorter one.
kstring_compare-prefix :
    (s more : List ℕ) (n : ℕ)
    → (kstring_compare s (s ++ more) n ≡ 0) × (kstring_compare (s ++ more) s n ≡ 0)
unfolding kstring_compare
kstring_compare-prefix s more zero = (refl, refl)
kstring_compare-prefix [] [] (suc n) = (refl, refl)
kstring_compare-prefix [] (c ∷ more) (suc n) = (refl, refl)
kstring_compare-prefix (c ∷ s) more (suc n) =
    let (left, right) = kstring_compare-prefix s more n in
    (compare_head c s (s ++ more) n left, compare_head c (s ++ more) s n right)

hash_loop-nul : (h : ℕ) (s rest : List ℕ) (n : ℕ) → hash_loop h (s ++ 0 ∷ rest) n ≡ hash_loop h s n
unfolding hash_loop
hash_loop-nul h [] rest zero = refl
hash_loop-nul h [] rest (suc n) = refl
hash_loop-nul h (c ∷ s) rest zero = refl
hash_loop-nul h (c ∷ s) rest (suc n) = elim (Bool-cases (c == 0)) [
  | inl e ↦ rw e
  | inr e ↦ rw e (hash_loop-nul ((char_value c + h * 33 % u32_mod) % u32_mod) s rest n)
]

-- The hash of a string does not depend on what stands behind its NUL.
kstring_hash32-nul :
    (s rest : List ℕ) (n : ℕ) → kstring_hash32 (s ++ 0 ∷ rest) n ≡ kstring_hash32 s n
unfolding kstring_hash32
kstring_hash32-nul s rest n = hash_loop-nul 5381 s rest n
