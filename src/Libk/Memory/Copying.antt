-- ===== src/Libk/Memory/Copying.antt =====
-- How much `kmemory_copy` of libk/kmemory.c copies.
use redshift.Base.{
  ℕ, zero, suc, ◌+◌, ◌-◌, ◌≤◌, ◌<◌, ◌≡◌, ◌≢◌, ◌∙◌, refl, sym, subst, ap, inl, inr, true, false,
  ◌&&◌, not, some, arith, ltb, leb, ◌==◌, ltb→lt, lt→ltb, ne→eqb, Bool-cases,
}
use redshift.Base.Word.{u32_mod}
use redshift.Libk.String.{Memory}
use redshift.Libk.Memory.{
  Cursors, copy, forwards, decrement, align_loop, four_loop, rest_loop, internal_copy, kmemory_copy,
}

-- `f` applied `n` times.
unfoldable pub repeat : {A : Type 0} → ℕ → (A → A) → A → A
repeat zero f a = a
repeat (suc n) f a = repeat n f (f a)

-- `n` copies of `k` bytes each.
abbrev pub copies : (move : ℕ → ℕ → ℕ) → (k n : ℕ) → Cursors → Cursors
copies move k n c = repeat n (copy move k) c

repeat-suc : {A : Type 0} (n : ℕ) (f : A → A) (a : A) → repeat (suc n) f a ≡ repeat n f (f a)
unfolding repeat
repeat-suc n f a = refl

repeat_add :
    {A : Type 0} (m n : ℕ) (f : A → A) (a : A) → repeat n f (repeat m f a) ≡ repeat (m + n) f a
unfolding repeat
repeat_add zero n f a = let e : n ≡ 0 + n = omega arith in ap (λ k. repeat k f a) e
repeat_add (suc m) n f a =
    let e : suc (m + n) ≡ suc m + n = omega arith in
    repeat_add m n f (f a) ∙ sym (repeat-suc (m + n) f a) ∙ ap (λ k. repeat k f a) e

-- Both pointers are 8 or more, as after each of the first `m` bytes.
abbrev pub IsHigh : (move : ℕ → ℕ → ℕ) → (m : ℕ) → Cursors → Type 0
IsHigh move m c = (i : ℕ) → i < m → (8 ≤ (copies move 1 i c).dst) × (8 ≤ (copies move 1 i c).src)

IsHigh-next :
    (move : ℕ → ℕ → ℕ) (m : ℕ) (c : Cursors) → IsHigh move (suc m) c → IsHigh move m (copy move 1 c)
IsHigh-next move m c h i l =
    let (d, s) = h (suc i) (omega arith) in
    (
      subst (λ c'. 8 ≤ c'.dst) (repeat-suc i (copy move 1) c) d,
      subst (λ c'. 8 ≤ c'.src) (repeat-suc i (copy move 1) c) s,
    )

IsHigh-now :
    (move : ℕ → ℕ → ℕ) (m : ℕ) (c : Cursors) → IsHigh move (suc m) c → (8 ≤ c.dst) × (8 ≤ c.src)
unfolding repeat
IsHigh-now move m c h = h 0 (omega arith)

align_stops :
    (fuel : ℕ) (move : ℕ → ℕ → ℕ) (c : Cursors)
    → align_loop (suc fuel) move c 0 ≡ some (c, u32_mod - 1)
unfolding align_loop
align_stops fuel move c = refl

align_goes_on :
    (fuel : ℕ) (move : ℕ → ℕ → ℕ) (c : Cursors) (n : ℕ)
    → (not (n == 0) && leb 8 c.dst && leb 8 c.src) ≡ true
    → align_loop (suc fuel) move c n
      ≡ align_loop fuel move (copy move 1 c) (decrement (decrement n))
unfolding align_loop
align_goes_on fuel move c n e = rw (align_loop, e)

high_test : (n d s : ℕ) → n ≢ 0 → 8 ≤ d → 8 ≤ s → (not (n == 0) && leb 8 d && leb 8 s) ≡ true
high_test n d s z h k = ground arith

two_less : (n : ℕ) → 2 ≤ n → n < u32_mod → decrement (decrement n) ≡ n - 2
two_less n l h = omega arith

align_loop-even :
    (fuel : ℕ) (move : ℕ → ℕ → ℕ) (m n : ℕ) (c : Cursors)
    → n ≡ m + m
    → n < u32_mod
    → m < fuel
    → IsHigh move m c
    → align_loop fuel move c n ≡ some (copies move 1 m c, u32_mod - 1)
unfolding repeat
align_loop-even zero move m n c e w l h = absurd (omega arith)
align_loop-even (suc fuel) move zero n c e w l h =
    ap (λ k. align_loop (suc fuel) move c k) (e ∙ omega arith) ∙ align_stops fuel move c
align_loop-even (suc fuel) move (suc m) n c e w l h =
    let (d, s) = IsHigh-now move m c h in
    align_goes_on fuel move c n (high_test n c.dst c.src (λ z. omega arith) d s)
    ∙ ap (align_loop fuel move (copy move 1 c)) (two_less n (omega arith) w)
    ∙ align_loop-even fuel move m (n - 2) (copy move 1 c) (omega arith) (omega arith) (omega arith)
        (IsHigh-next move m c h)

four_stops :
    (fuel : ℕ) (move : ℕ → ℕ → ℕ) (c : Cursors) (n : ℕ)
    → ltb 4 n ≡ false
    → four_loop (suc fuel) move c n ≡ some (c, n)
unfolding four_loop
four_stops fuel move c n e = rw (four_loop, e)

four_goes_on :
    (fuel : ℕ) (move : ℕ → ℕ → ℕ) (c : Cursors) (n : ℕ)
    → ltb 4 n ≡ true
    → four_loop (suc fuel) move c n ≡ four_loop fuel move (copies move 8 4 c) (n - 4)
unfolding four_loop repeat
four_goes_on fuel move c n e = rw (four_loop, e)

four_loop_lem :
    (fuel : ℕ) (move : ℕ → ℕ → ℕ) (n : ℕ) (c : Cursors)
    → n < fuel
    → (r : ℕ) × (r ≤ n) × (four_loop fuel move c n ≡ some (copies move 8 (n - r) c, r))
unfolding repeat
four_loop_lem zero move n c l = absurd (omega arith)
four_loop_lem (suc fuel) move n c l = elim (Bool-cases (ltb 4 n)) [
  | inr e ↦
      let none_done : 0 ≡ n - n = omega arith in
      (n, omega arith, four_stops fuel move c n e ∙ ap (λ k. some (copies move 8 k c, n)) none_done)
  | inl e ↦
      let more = ltb→lt 4 n e in
      let (r, s, x) = four_loop_lem fuel move (n - 4) (copies move 8 4 c) (omega arith) in
      let count : 4 + (n - 4 - r) ≡ n - r = omega (arith, s) in
      (
        r,
        omega (arith, s),
        four_goes_on fuel move c n e
            ∙ x
            ∙ ap (λ c'. some (c', r)) (repeat_add 4 (n - 4 - r) (copy move 8) c)
            ∙ ap (λ k. some (copies move 8 k c, r)) count,
      )
]

rest_loop_lem :
    (move : ℕ → ℕ → ℕ) (k n : ℕ) (c : Cursors) → rest_loop move k c n ≡ copies move k n c
unfolding rest_loop repeat
rest_loop_lem move k zero c = refl
rest_loop_lem move k (suc n) c = rest_loop_lem move k n (copy move k c)

internal_copy_lem :
    (fuel : ℕ) (move : ℕ → ℕ → ℕ) (c c' c'' : Cursors) (n n' n'' : ℕ)
    → align_loop fuel move c n ≡ some (c', n')
    → four_loop fuel move c' n' ≡ some (c'', n'')
    → internal_copy fuel move c n ≡ some (rest_loop move 8 c'' n'')
unfolding internal_copy rest_loop
internal_copy_lem fuel move c c' c'' n n' n'' e e' = rw (internal_copy, e, e')

internal_copy-words :
    (fuel : ℕ) (move : ℕ → ℕ → ℕ) (c c' : Cursors) (n n' : ℕ)
    → n' < fuel
    → align_loop fuel move c n ≡ some (c', n')
    → internal_copy fuel move c n ≡ some (copies move 8 n' c')
internal_copy-words fuel move c c' n n' l e =
    let (r, s, x) = four_loop_lem fuel move n' c' l in
    internal_copy_lem fuel move c c' (copies move 8 (n' - r) c') n n' r e x
    ∙ ap some (
        rest_loop_lem move 8 r (copies move 8 (n' - r) c')
        ∙ repeat_add (n' - r) r (copy move 8) c'
        ∙ ap (λ k. copies move 8 k c') (omega arith))

copies_at :
    (i : ℕ) (c : Cursors)
    → c.dst + i < u32_mod
    → c.src + i < u32_mod
    → ((copies forwards 1 i c).dst ≡ c.dst + i) × ((copies forwards 1 i c).src ≡ c.src + i)
unfolding repeat copy
copies_at zero c d s = (omega arith, omega arith)
copies_at (suc i) c d s =
    let (x, y) = copies_at i (copy forwards 1 c) (omega arith) (omega arith) in
    (omega (arith, x), omega (arith, y))

forwards-IsHigh :
    (m : ℕ) (c : Cursors)
    → 8 ≤ c.dst
    → 8 ≤ c.src
    → c.dst + m < u32_mod
    → c.src + m < u32_mod
    → IsHigh forwards m c
forwards-IsHigh m c d s d' s' i l =
    let (x, y) = copies_at i c (omega arith) (omega arith) in (omega (arith, x), omega (arith, y))

abbrev pub mem_of : Cursors → Memory
mem_of c = c.mem

kmemory_copy_lem :
    (fuel : ℕ) (mem : Memory) (dst src n : ℕ) (c : Cursors)
    → dst < src
    → internal_copy fuel forwards (record { mem = mem; dst = dst; src = src }) n ≡ some c
    → kmemory_copy fuel mem dst src n ≡ some c.mem
unfolding kmemory_copy
kmemory_copy_lem fuel mem dst src n c l e =
    rw (ne→eqb dst src (λ s. omega arith), lt→ltb dst src l, e)

-- A copy of `m + m` bytes to a lower address, both from 8 on, copies `m` bytes; then `n` has wrapped
-- round, and 2^32 - 1 words of 8 bytes are copied from there on, through the whole memory.
pub kmemory_copy-words :
    (fuel : ℕ) (mem : Memory) (dst src m : ℕ)
    → 8 ≤ dst
    → dst < src
    → src + m < u32_mod
    → m + m < u32_mod
    → u32_mod ≤ fuel
    → kmemory_copy fuel mem dst src (m + m)
      ≡ some (
          mem_of (
            copies forwards 8
              (u32_mod - 1)
              (copies forwards 1 m (record { mem = mem; dst = dst; src = src }))))
kmemory_copy-words fuel mem dst src m d l s w f =
    let c : Cursors = record { mem = mem; dst = dst; src = src } in
    kmemory_copy_lem fuel mem dst src (m + m)
      (copies forwards 8 (u32_mod - 1) (copies forwards 1 m c)) l
      (internal_copy-words fuel forwards c (copies forwards 1 m c) (m + m) (u32_mod - 1)
        (omega arith)
        (align_loop-even fuel forwards m (m + m) c refl w (omega arith)
          (forwards-IsHigh m c d (omega arith) (omega arith) s)))
