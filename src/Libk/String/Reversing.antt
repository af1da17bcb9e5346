-- ===== src/Libk/String/Reversing.antt =====
-- `kstring_reverse` of libk/kstring.c: the bytes between the ends change places.
use redshift.Base.{
  ℕ, zero, suc, ◌+◌, ◌-◌, ◌≤◌, ◌<◌, ◌≡◌, refl, sym, subst, ap, ◌⊎◌, inl, inr, ltb, ltb→lt, ne→eqb,
  ◌≢◌, arith, Bool-cases, lt→ltb, le→ltb,
}
use redshift.Libk.String.{Memory, trim, swap, swap_loop, kstring_reverse}

-- Between `p` and `q` the bytes of the one memory are those of the other from behind; elsewhere the
-- two agree.
abbrev pub Reversed : (mem mem' : Memory) (p q : ℕ) → Type 0
Reversed mem mem' p q =
    ((i j : ℕ) → p ≤ i → i ≤ q → i + j ≡ p + q → mem' i ≡ mem j)
    × ((i : ℕ) → (i < p) ⊎ (q < i) → mem' i ≡ mem i)

swap_stops : (fuel : ℕ) (mem : Memory) (p q : ℕ) → q ≤ p → swap_loop fuel mem p q ≡ mem
unfolding swap_loop
swap_stops zero mem p q h = refl
swap_stops (suc fuel) mem p q h = rw (le→ltb p q h)

swap_goes_on :
    (fuel : ℕ) (mem : Memory) (p q : ℕ)
    → p < q
    → swap_loop (suc fuel) mem p q ≡ swap_loop fuel (swap mem p q) (p + 1) (q - 1)
unfolding swap_loop
swap_goes_on fuel mem p q h = rw (lt→ltb p q h)

swap-inner :
    (mem mem' : Memory) (p q : ℕ)
    → p < q
    → Reversed (swap mem p q) mem' (p + 1) (q - 1)
    → Reversed mem mem' p q
unfolding swap
swap-inner mem mem' p q h (turned, kept) =
    (λ i j a b e. ground (arith, turned i j, kept i), λ i o. ground (arith, o, kept i))

Reversed-short : (mem : Memory) (p q : ℕ) → p ≤ q + 1 → q ≤ p → Reversed mem mem p q
Reversed-short mem p q h k = ((λ i j a b e. ap mem (omega arith)), λ i o. refl)

swap_loop-Reversed :
    (fuel : ℕ) (mem : Memory) (p q : ℕ)
    → p ≤ q + 1
    → q ≤ p + fuel
    → Reversed mem (swap_loop fuel mem p q) p q
swap_loop-Reversed zero mem p q h k =
    subst (λ m. Reversed mem m p q) (sym (swap_stops zero mem p q (omega arith)))
      (Reversed-short mem p q h (omega arith))
swap_loop-Reversed (suc fuel) mem p q h k = elim (Bool-cases (ltb p q)) [
  | inl l ↦
      subst (λ m. Reversed mem m p q) (sym (swap_goes_on fuel mem p q (ltb→lt p q l)))
        (swap-inner mem (swap_loop fuel (swap mem p q) (p + 1) (q - 1)) p q (ltb→lt p q l) (
          swap_loop-Reversed fuel (swap mem p q) (p + 1) (q - 1) (ground (arith, l)) (omega arith)))
  | inr l ↦
      subst (λ m. Reversed mem m p q) (sym (swap_stops (suc fuel) mem p q (ground arith)))
        (Reversed-short mem p q h (ground arith))
]

trim_keeps : (mem : Memory) (s n : ℕ) → mem (s + n) ≢ 0 → trim mem s n ≡ n
unfolding trim
trim_keeps mem s zero h = refl
trim_keeps mem s (suc n) h = rw (ne→eqb (mem (s + suc n)) 0 h)

trim_drops :
    (mem : Memory) (s n : ℕ) → mem (s + suc n) ≡ 0 → mem (s + n) ≢ 0 → trim mem s (suc n) ≡ n
unfolding trim
trim_drops mem s n h k = rw h (trim_keeps mem s n k)

reverse_to :
    (mem : Memory) (s n last : ℕ)
    → trim mem s n ≡ last
    → last ≤ n
    → Reversed mem (kstring_reverse mem s n) s (s + last)
unfolding kstring_reverse
reverse_to mem s n last e h =
    subst (λ l. Reversed mem (swap_loop n mem s (s + l)) s (s + last)) (sym e)
      (swap_loop-Reversed n mem s (s + last) (omega arith) (omega arith))

-- Reversing `n + 1` characters turns them around and changes no other byte, where the last is not a NUL
-- and a NUL stands behind it; but where another byte stands behind them, the function takes that
-- one into the string and turns all `n + 2` bytes around.
pub kstring_reverse-Reversed :
    (mem : Memory) (s n : ℕ)
    → (mem (s + suc n) ≡ 0
        → mem (s + n) ≢ 0
        → Reversed mem (kstring_reverse mem s (suc n)) s (s + n))
      × (mem (s + suc n) ≢ 0 → Reversed mem (kstring_reverse mem s (suc n)) s (s + suc n))
kstring_reverse-Reversed mem s n = (
  λ h k. reverse_to mem s (suc n) n (trim_drops mem s n h k) (omega arith),
  λ h. reverse_to mem s (suc n) (suc n) (trim_keeps mem s (suc n) h) (omega arith),
)
