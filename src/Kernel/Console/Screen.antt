-- ===== src/Kernel/Console/Screen.antt =====
-- What src/kernel/console.c writes to the screen's memory: a character, a cleared screen.
use redshift.Base.{
  ℕ, zero, suc, ◌+◌, ◌-◌, ◌*◌, ◌%◌, ◌≤◌, ◌<◌, ◌≡◌, ◌∙◌, refl, ap, ◌⊎◌, inl, inr, ◌==◌, arith,
  Bool-cases,
}
use redshift.Base.Word.{u32_mod}
use redshift.Kernel.Console.{
  Console, Memory, console_update_cursor, console_clear, kmemory_fill16, write, blank, origin,
  buffer_size,
}

kmemory_fill16-outside :
    (mem : Memory) (p v n i : ℕ) → (i < p) ⊎ (p + n ≤ i) → kmemory_fill16 mem p v n i ≡ mem i
unfolding kmemory_fill16
kmemory_fill16-outside mem p v zero i h = refl
kmemory_fill16-outside mem p v (suc n) i h =
    kmemory_fill16-outside (write mem p v) (suc p) v n i (ground arith) ∙ ground arith

kmemory_fill16-inside :
    (mem : Memory) (p v n i : ℕ) → p ≤ i → i < p + n → kmemory_fill16 mem p v n i ≡ v
unfolding kmemory_fill16
kmemory_fill16-inside mem p v zero i h k = absurd (omega arith)
kmemory_fill16-inside mem p v (suc n) i h k = elim (Bool-cases (i == p)) [
  | inl e ↦ kmemory_fill16-outside (write mem p v) (suc p) v n i (ground arith) ∙ rw e refl
  | inr e ↦ kmemory_fill16-inside (write mem p v) (suc p) v n i (ground arith) (omega arith)
]

-- A screen whose memory, in bytes, is counted without wrapping.
abbrev pub IsSmall : Console → Type 0
IsSmall s = (4 * (s.columns * s.rows) < u32_mod) × (s.columns < u32_mod) × (s.rows < u32_mod)

origin-zero : (s : Console) → s.x_origin ≡ 0 → s.y_origin ≡ 0 → origin s ≡ 0
origin-zero s x y = ap (λ q. (q * s.columns + s.x_origin) % u32_mod) y ∙ omega (arith, x)

buffer_size_lem : (s : Console) → IsSmall s → buffer_size s ≡ 2 * (s.columns * s.rows)
buffer_size_lem s small = omega arith

-- Clearing a screen whose origin is its corner, and whose size in bytes does not wrap around,
-- makes blank not only its cells, but as many cells again behind the screen, and changes no other.
pub console_clear-overrun :
    (inb : ℕ → ℕ) (s : Console) (i : ℕ)
    → IsSmall s
    → s.x_origin ≡ 0
    → s.y_origin ≡ 0
    → (i < 2 * (s.columns * s.rows) → (console_clear inb s).buffer i ≡ blank s)
      × (2 * (s.columns * s.rows) ≤ i → (console_clear inb s).buffer i ≡ s.buffer i)
unfolding console_clear console_update_cursor
console_clear-overrun inb s i small x y =
    let z = origin-zero s x y in
    let n = cleared in
    (
      λ h.
          kmemory_fill16-inside s.buffer (origin s) (blank s) _ i (omega (arith, z))
            (omega (arith, z, n)),
      λ h. kmemory_fill16-outside s.buffer (origin s) (blank s) _ i (inr (omega (arith, z, n))),
    )
  where
    cleared : (buffer_size s + u32_mod - origin s) % u32_mod ≡ 2 * (s.columns * s.rows)
    cleared = omega (arith, origin-zero s x y, buffer_size_lem s small)
