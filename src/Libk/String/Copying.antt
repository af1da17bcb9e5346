-- ===== src/Libk/String/Copying.antt =====
-- `kstring_copy` of libk/kstring.c: what it writes, and how far.
use redshift.Base.{
  ℕ, zero, suc, ◌+◌, ◌≤◌, ◌<◌, ◌≡◌, ◌∙◌, refl, sym, subst, ap, ◌⊎◌, inl, inr, true, false, List, [],
  ◌∷◌, ◌==◌, get_or, min, arith, Bool-cases,
}
use redshift.Libk.String.{Memory, write, kstring_length, kstring_copy}

-- The bytes from `dst` are those of the string, and then a NUL at `last`; no others are changed.
abbrev pub Copied : (mem mem' : Memory) (dst last : ℕ) → List ℕ → Type 0
Copied mem mem' dst last src =
    ((i : ℕ) → dst + i < last → mem' (dst + i) ≡ get_or src i 0)
    × (mem' last ≡ 0)
    × ((a : ℕ) → (a < dst) ⊎ (last < a) → mem' a ≡ mem a)

-- What a copy returns: the memory, and the address `last`.
abbrev pub Result : (mem : Memory) (dst last : ℕ) → List ℕ → Memory × ℕ → Type 0
Result mem dst last src (mem', end) = (end ≡ last) × Copied mem mem' dst last src

pub stops :
    (mem : Memory) (dst last : ℕ) (src : List ℕ)
    → last ≡ dst
    → Result mem dst last src (write mem dst 0, dst)
stops mem dst last src e =
    (sym e, ((λ i h. absurd (omega arith)), ground (arith, e), λ a h. ground (arith, h)))

pub goes_on :
    (mem : Memory) (dst last c : ℕ) (src : List ℕ) (r : Memory × ℕ)
    → suc dst ≤ last
    → Result (write mem dst c) (suc dst) last src r
    → Result mem dst last (c ∷ src) r
goes_on mem dst last c src (mem', end) l (e, (copied, ended, kept)) =
    (e, (bytes, ended, λ a h. ground (arith, h, kept a)))
  where
    bytes : (i : ℕ) → dst + i < last → mem' (dst + i) ≡ get_or (c ∷ src) i 0
    bytes zero h = ground (arith, kept dst)
    bytes (suc i) h = ap mem' (omega arith) ∙ copied i (omega arith)

copy_stops :
    (mem : Memory) (dst c : ℕ) (src : List ℕ) (n : ℕ)
    → (c == 0) ≡ true
    → kstring_copy mem dst (c ∷ src) (suc n) ≡ (write mem dst 0, dst)
unfolding kstring_copy
copy_stops mem dst c src n e = rw e

copy_goes_on :
    (mem : Memory) (dst c : ℕ) (src : List ℕ) (n : ℕ)
    → (c == 0) ≡ false
    → kstring_copy mem dst (c ∷ src) (suc n) ≡ kstring_copy (write mem dst c) (suc dst) src n
unfolding kstring_copy
copy_goes_on mem dst c src n e = rw e

length_zero : (c : ℕ) (s : List ℕ) → (c == 0) ≡ true → kstring_length (c ∷ s) ≡ 0
unfolding kstring_length
length_zero c s e = rw e

length_suc :
    (c : ℕ) (s : List ℕ) → (c == 0) ≡ false → kstring_length (c ∷ s) ≡ suc (kstring_length s)
unfolding kstring_length
length_suc c s e = rw e

length_nil : kstring_length [] ≡ 0
unfolding kstring_length
length_nil = refl

copy_ends :
    (mem : Memory) (dst : ℕ) (src : List ℕ) → kstring_copy mem dst src 0 ≡ (write mem dst 0, dst)
unfolding kstring_copy
copy_ends mem dst [] = refl
copy_ends mem dst (c ∷ src) = refl

copy_nil : (mem : Memory) (dst n : ℕ) → kstring_copy mem dst [] n ≡ (write mem dst 0, dst)
unfolding kstring_copy
copy_nil mem dst n = refl

-- Copying at most `n` characters writes the first `n` characters of a string, or all of a shorter
-- one, and the NUL behind them, whose address it returns. It changes no other byte: with a string
-- of `n` characters or more, the NUL is written at `dst + n`.
pub kstring_copy-Copied :
    (mem : Memory) (dst : ℕ) (src : List ℕ) (n : ℕ)
    → Result mem dst (dst + min n (kstring_length src)) src (kstring_copy mem dst src n)
kstring_copy-Copied mem dst [] n =
    subst (Result mem dst _ []) (sym (copy_nil mem dst n))
      (stops mem dst (dst + min n (kstring_length [])) [] (omega (arith, length_nil)))
kstring_copy-Copied mem dst (c ∷ src) zero =
    subst (Result mem dst _ (c ∷ src)) (sym (copy_ends mem dst (c ∷ src)))
      (stops mem dst (dst + min 0 (kstring_length (c ∷ src))) (c ∷ src) (omega arith))
kstring_copy-Copied mem dst (c ∷ src) (suc n) = elim (Bool-cases (c == 0)) [
  | inl e ↦
      subst (Result mem dst (dst + min (suc n) (kstring_length (c ∷ src))) (c ∷ src))
        (sym (copy_stops mem dst c src n e))
        (stops mem dst (dst + min (suc n) (kstring_length (c ∷ src))) (c ∷ src)
          (omega (arith, length_zero c src e)))
  | inr e ↦
      let last : dst + min (suc n) (kstring_length (c ∷ src))
          ≡ suc dst + min n (kstring_length src) =
        omega (arith, length_suc c src e) in
      subst (Result mem dst (dst + min (suc n) (kstring_length (c ∷ src))) (c ∷ src))
        (sym (copy_goes_on mem dst c src n e))
        (goes_on mem dst (dst + min (suc n) (kstring_length (c ∷ src))) c src
          (kstring_copy (write mem dst c) (suc dst) src n) (omega (arith, last))
          (subst
            (λ l.
              Result (write mem dst c) (suc dst) l src
                (kstring_copy (write mem dst c) (suc dst) src n))
            (sym last) (kstring_copy-Copied (write mem dst c) (suc dst) src n)))
]
