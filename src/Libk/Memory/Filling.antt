-- ===== src/Libk/Memory/Filling.antt =====
-- How far `kmemory_zero` of libk/kmemory.c writes.
use redshift.Base.{
  ℕ, zero, suc, ◌+◌, ◌*◌, ◌/◌, ◌%◌, ◌≤◌, ◌<◌, ◌≡◌, ◌∙◌, refl, sym, subst, ap, ◌⊎◌, inl, inr, true,
  false, arith, ltb, leb, ◌==◌, eqb→eq, if◌then◌else◌, Bool-cases, all_below_sound,
}
use native.Mathlib.Nat.{mod-lt}
use redshift.Libk.String.{Memory, write}
use redshift.Libk.Memory.{Fill, store, kfill, fill_to_boundary, fill_words, kfill8, kmemory_zero}

-- The bytes from `a` up to `b` are cleared, and no others are changed.
abbrev pub IsCleared : (a b : ℕ) (mem mem' : Memory) → Type 0
IsCleared a b mem mem' =
    ((x : ℕ) → a ≤ x → x < b → mem' x ≡ 0) × ((x : ℕ) → (x < a) ⊎ (b ≤ x) → mem' x ≡ mem x)

IsCleared-none : (a : ℕ) (mem : Memory) → IsCleared a a mem mem
IsCleared-none a mem = ((λ x l h. absurd (omega arith)), λ x h. refl)

IsCleared-both :
    (a b c : ℕ) (m1 m2 m3 : Memory)
    → a ≤ b
    → b ≤ c
    → IsCleared a b m1 m2
    → IsCleared b c m2 m3
    → IsCleared a c m1 m3
IsCleared-both a b c m1 m2 m3 l l' (z, k) (z', k') = (
  (λ x h h'. elim (Bool-cases (ltb x b)) [
    | inl e ↦ k' x (inl (ground arith)) ∙ z x h (ground arith)
    | inr e ↦ z' x (ground arith) h'
  ]),
  λ x h. ground (arith, h, k x, k' x),
)

IsCleared-byte : (a : ℕ) (mem : Memory) → IsCleared a (suc a) mem (write mem a 0)
IsCleared-byte a mem = ((λ x l h. ground arith), λ x h. ground (arith, h))

store-IsCleared : (mem : Memory) (a k : ℕ) → IsCleared a (a + k) mem (store mem a 0 k)
unfolding store
store-IsCleared mem a zero = subst (λ b. IsCleared a b mem mem) (omega arith) (IsCleared-none a mem)
store-IsCleared mem a (suc k) =
    IsCleared-both a (suc a) (a + suc k) mem (write mem a 0) _ (omega arith) (omega arith)
      (IsCleared-byte a mem)
      (subst (λ b. IsCleared (suc a) b (write mem a 0) (store (write mem a 0) (suc a) 0 k))
        (omega arith) (store-IsCleared (write mem a 0) (suc a) k))

kfill-IsCleared :
    (k : ℕ) (mem : Memory) (ptr n : ℕ) → IsCleared ptr (ptr + k * n) mem (kfill k mem ptr 0 n)
unfolding kfill
kfill-IsCleared k mem ptr zero =
    subst (λ b. IsCleared ptr b mem mem) (omega arith) (IsCleared-none ptr mem)
kfill-IsCleared k mem ptr (suc n) =
    let e : ptr + k + k * n ≡ ptr + k * suc n = omega arith in
    IsCleared-both ptr (ptr + k) (ptr + k * suc n) mem (store mem ptr 0 k) _ (omega arith)
      (omega (arith, e)) (store-IsCleared mem ptr k)
      (subst
        (λ b. IsCleared (ptr + k) b (store mem ptr 0 k) (kfill k (store mem ptr 0 k) (ptr + k) 0 n))
        e (kfill-IsCleared k (store mem ptr 0 k) (ptr + k) n))

-- One step of `kfill8`: what it clears, and where the pointer and the count stand then.
record Cleared (k : ℕ) (f f' : Fill) : Type 0 where
  extent : IsCleared f.ptr f'.ptr f.mem f'.mem
  ptr_eq : f'.ptr ≡ (if leb k f.n then f.ptr + k * (f.n / k) else f.ptr)
  n_eq : f'.n ≡ (if leb k f.n then f.n / k % k else f.n)

fill_words-Cleared : (k : ℕ) (f : Fill) → Cleared k f (fill_words k 0 f)
unfolding fill_words
fill_words-Cleared k f = elim (Bool-cases (leb k f.n)) [
  | inl e ↦
      rw e (record { extent = kfill-IsCleared k f.mem f.ptr (f.n / k); ptr_eq = rw e; n_eq = rw e })
  | inr e ↦ rw e (record { extent = IsCleared-none f.ptr f.mem; ptr_eq = rw e; n_eq = rw e })
]

-- What is left of `n` bytes by the steps of 2 bytes, and of 4, counted from the pointer.
abbrev offset2 : ℕ → ℕ
offset2 n = if leb 2 n then 2 * (n / 2) + n / 2 % 2 else n

abbrev offset4 : ℕ → ℕ
offset4 n = if leb 4 n then 4 * (n / 4) + offset2 (n / 4 % 4) else offset2 n

-- The bytes that a count below 8 makes the last steps write.
abbrev pub tail : ℕ → ℕ
tail n = if leb 4 n then 5 else if leb 2 n then 3 else n

-- The bytes that `kfill8` writes from a boundary of 4 bytes.
abbrev pub filled : ℕ → ℕ
filled n = if leb 8 n then 8 * (n / 8) + tail (n / 8 % 8) else tail n

offset4_lem : (n : ℕ) → n < 8 → offset4 n ≡ tail n
offset4_lem n h =
    eqb→eq (offset4 n) (tail n) (all_below_sound 8 (λ m. offset4 m == tail m) n refl h)

module _ (k : ℕ) (f f' : Fill) (c : Cleared k f f') where
  cleared_le : f.ptr ≤ f'.ptr
  cleared_le = elim (Bool-cases (leb k f.n)) [
    | inl e ↦ omega (arith, rw e at c.ptr_eq)
    | inr e ↦ omega (arith, rw e at c.ptr_eq)
  ]

  -- Where the steps behind this one end, for what they write of a count.
  cleared_end :
      (behind : ℕ → ℕ)
      → f'.ptr + behind f'.n
        ≡ f.ptr + (if leb k f.n then k * (f.n / k) + behind (f.n / k % k) else behind f.n)
  cleared_end behind = elim (Bool-cases (leb k f.n)) [
    | inl e ↦
        let p : f'.ptr ≡ f.ptr + k * (f.n / k) = rw e at c.ptr_eq in
        let m : f'.n ≡ f.n / k % k = rw e at c.n_eq in rw (e, p, m) (omega arith)
    | inr e ↦
        let p : f'.ptr ≡ f.ptr = rw e at c.ptr_eq in
        let m : f'.n ≡ f.n = rw e at c.n_eq in rw (e, p, m) refl
  ]

  cleared_small : 0 < k → (leb k f.n ≡ false → f.n < k) → f'.n < k
  cleared_small pos small = elim (Bool-cases (leb k f.n)) [
    | inl e ↦ rw (rw e at c.n_eq) (mod-lt (f.n / k) {m = k} pos)
    | inr e ↦ rw (rw e at c.n_eq) (small e)
  ]

aligned_start :
    (mem : Memory) (ptr value n : ℕ)
    → (ptr % 4 == 0) ≡ true
    → fill_to_boundary mem ptr value n ≡ record { mem = mem; ptr = ptr; n = n }
unfolding fill_to_boundary
aligned_start mem ptr value zero e = refl
aligned_start mem ptr value (suc n) e = rw e refl

kmemory_zero_aligned :
    (mem : Memory) (ptr n : ℕ)
    → (ptr % 4 == 0) ≡ true
    → let f0 : Fill = record { mem = mem; ptr = ptr; n = n } in
      let f3 = fill_words 2 0 (fill_words 4 0 (fill_words 8 0 f0)) in
      kmemory_zero mem ptr n ≡ kfill 1 f3.mem f3.ptr 0 f3.n
unfolding kmemory_zero kfill8
kmemory_zero_aligned mem ptr n e =
    ap
      (λ f0.
        let f3 = fill_words 2 0 (fill_words 4 0 (fill_words 8 0 f0)) in
        kfill 1 f3.mem f3.ptr 0 f3.n)
      (aligned_start mem ptr 0 n e)

-- From a boundary of 4 bytes, `kmemory_zero` clears `filled n` bytes, not `n`, and changes no others:
-- after the words of 8 bytes it goes on with the remainder of their number, not of `n`, and so it
-- does after the shorter words.
pub kmemory_zero-IsCleared :
    (mem : Memory) (ptr n : ℕ)
    → (ptr % 4 == 0) ≡ true
    → IsCleared ptr (ptr + filled n) mem (kmemory_zero mem ptr n)
kmemory_zero-IsCleared mem ptr n e =
    let f0 : Fill = record { mem = mem; ptr = ptr; n = n } in
    let f1 = fill_words 8 0 f0 in
    let f2 = fill_words 4 0 f1 in
    let f3 = fill_words 2 0 f2 in
    let c1 = fill_words-Cleared 8 f0 in
    let c2 = fill_words-Cleared 4 f1 in
    let c3 = fill_words-Cleared 2 f2 in
    let l1 = cleared_le 8 f0 f1 c1 in
    let l2 = cleared_le 4 f1 f2 c2 in
    let l3 = cleared_le 2 f2 f3 c3 in
    let small : f1.n < 8 = cleared_small 8 f0 f1 c1 (omega arith) (λ h. ground arith) in
    let end : f3.ptr + 1 * f3.n ≡ ptr + filled n =
      ap (λ m. f3.ptr + m) (omega arith)
      ∙ cleared_end 2 f2 f3 c3 (λ m. m)
      ∙ cleared_end 4 f1 f2 c2 offset2
      ∙ ap (λ m. f1.ptr + m) (offset4_lem f1.n small)
      ∙ cleared_end 8 f0 f1 c1 tail in
    subst (IsCleared ptr (ptr + filled n) mem) (sym (kmemory_zero_aligned mem ptr n e)) (
      subst (λ b. IsCleared ptr b mem (kfill 1 f3.mem f3.ptr 0 f3.n)) end
        (IsCleared-both ptr f3.ptr (f3.ptr + 1 * f3.n) mem f3.mem _ (omega (arith, l1, l2, l3))
          (omega arith)
          (IsCleared-both ptr f2.ptr f3.ptr mem f2.mem f3.mem (omega (arith, l1, l2)) l3
            (IsCleared-both ptr f1.ptr f2.ptr mem f1.mem f2.mem l1 l2 c1.extent c2.extent)
            c3.extent)
          (kfill-IsCleared 1 f3.mem f3.ptr f3.n)))
