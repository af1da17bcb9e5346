-- ===== src/Mem/Frames/Search.antt =====
-- `frame_get_first_free` of arch/i686/mem/paging.c finds the first frame that is not used.
use redshift.Base.{
  ℕ, zero, suc, ◌+◌, ◌-◌, ◌*◌, ◌/◌, ◌%◌, ◌≤◌, ◌<◌, ◌≡◌, refl, inl, inr, true, false, Option, none,
  some, List, [], ◌∷◌, ◌∙◌, sym, ap, ◌==◌, length, Bool-cases, arith, eqb→eq, ltb, false≢true,
}
use redshift.Base.Bits.{bit_at, bit_at-ones}
use redshift.Mem.Frames.{first_clear, first_free, frame_get_first_free, Frames, bit_index}
use redshift.Mem.Frames.Bitmap.{used, test_bit-bit_at}

-- The first clear bit of a word, from bit `j` on.
data FirstClear (w j n : ℕ) : Option ℕ → Type 0 where
  at :
      (i : ℕ)
      → j ≤ i
      → i < j + n
      → bit_at i w ≡ false
      → ((k : ℕ) → j ≤ k → k < i → bit_at k w ≡ true)
      → FirstClear w j n (some i)
  nowhere : ((k : ℕ) → j ≤ k → k < j + n → bit_at k w ≡ true) → FirstClear w j n none

FirstClear-next :
    (w j n : ℕ) (o : Option ℕ)
    → bit_at j w ≡ true
    → FirstClear w (j + 1) n o
    → FirstClear w j (suc n) o
FirstClear-next w j n o b (at i l h c before) = at i (omega arith) (omega arith) c λ k p q.
    elim (Bool-cases (k == j)) [
      | inl e ↦ ap (λ x. bit_at x w) (eqb→eq k j e) ∙ b
      | inr e ↦ before k (ground arith) q
    ]
FirstClear-next w j n o b (nowhere before) = nowhere λ k p q. elim (Bool-cases (k == j)) [
  | inl e ↦ ap (λ x. bit_at x w) (eqb→eq k j e) ∙ b
  | inr e ↦ before k (ground arith) (omega arith)
]

first_clear-FirstClear : (n j w : ℕ) → FirstClear w j n (first_clear n j w)
unfolding first_clear
first_clear-FirstClear zero j w = nowhere λ k p q. absurd (omega arith)
first_clear-FirstClear (suc n) j w = elim (Bool-cases (bit_at j w)) [
  | inl b ↦
      rw (test_bit-bit_at w j ∙ b)
        (FirstClear-next w j n (first_clear n (j + 1) w) b (first_clear-FirstClear n (j + 1) w))
  | inr b ↦
      rw (test_bit-bit_at w j ∙ b)
        (at j (omega arith) (omega arith) b λ k p q. absurd (omega arith))
]

-- A bitmap's first word, and the words behind it.
used_head : (w : ℕ) (ws : List ℕ) (g : ℕ) → g < 32 → used (w ∷ ws) g ≡ bit_at g w
unfolding used
used_head w ws g h =
    let z : g / 32 ≡ 0 = omega arith in let m : g % 32 ≡ g = omega arith in rw (z, m)

used_tail : (w : ℕ) (ws : List ℕ) (g : ℕ) → used (w ∷ ws) (g + 32) ≡ used ws g
unfolding used
used_tail w ws g =
    let z : (g + 32) / 32 ≡ suc (g / 32) = omega arith in
    let m : (g + 32) % 32 ≡ g % 32 = omega arith in rw (z, m)

-- The frames below `n` are all used, or `r` is the first that is not.
data FirstUnused (words : List ℕ) (n : ℕ) : Option ℕ → Type 0 where
  unused :
      (r : ℕ)
      → r < n
      → used words r ≡ false
      → ((g : ℕ) → g < r → used words g ≡ true)
      → FirstUnused words n (some r)
  full : ((g : ℕ) → g < n → used words g ≡ true) → FirstUnused words n none

abbrev result : ℕ → Option ℕ → ℕ
result i none = 0
result i (some r) = i * 32 + r

used_all :
    (w : ℕ) (ws : List ℕ) (n g : ℕ)
    → ((k : ℕ) → k < 32 → bit_at k w ≡ true)
    → ((k : ℕ) → k < n → used ws k ≡ true)
    → g < n + 32
    → used (w ∷ ws) g ≡ true
used_all w ws n g b all h = elim (Bool-cases (ltb g 32)) [
  | inl l ↦ used_head w ws g (ground arith) ∙ b g (ground arith)
  | inr l ↦
      let e : g ≡ g - 32 + 32 = ground arith in
      ap (used (w ∷ ws)) e ∙ used_tail w ws (g - 32) ∙ all (g - 32) (ground arith)
]

-- A first word that is full, and what the search through the others found.
FirstUnused-tail :
    (w : ℕ) (ws : List ℕ) (n : ℕ) (o : Option ℕ)
    → ((k : ℕ) → k < 32 → bit_at k w ≡ true)
    → FirstUnused ws (n * 32) o
    → (o' : Option ℕ) × FirstUnused (w ∷ ws) (suc n * 32) o'
      × ((i : ℕ) → result (i + 1) o ≡ result i o')
FirstUnused-tail w ws n o b (full all) =
    (none, full (λ g h. used_all w ws (n * 32) g b all (omega arith)), λ i. refl)
FirstUnused-tail w ws n o b (unused r h c before) = (
  some (r + 32),
  unused (r + 32) (omega arith) (used_tail w ws r ∙ c)
      (λ g l. used_all w ws r g b before (omega arith)),
  λ i. omega arith,
)

full_word : (w : ℕ) → (w == 0xffff_ffff) ≡ true → (k : ℕ) → k < 32 → bit_at k w ≡ true
full_word w e k h = ap (bit_at k) (eqb→eq w 0xffff_ffff e) ∙ bit_at-ones 32 k h

first_free-FirstUnused :
    (n i : ℕ) (words : List ℕ)
    → n ≤ length words
    → (o : Option ℕ) × FirstUnused words (n * 32) o × (first_free n i words ≡ result i o)
unfolding first_free
first_free-FirstUnused zero i words l = (none, full (λ g h. absurd (omega arith)), refl)
first_free-FirstUnused (suc n) i [] l = absurd (omega arith)
first_free-FirstUnused (suc n) i (w ∷ ws) l =
    let (o, f, e) = first_free-FirstUnused n (i + 1) ws (omega arith) in
    elim (Bool-cases (w == 0xffff_ffff)) [
      | inl all ↦
          let (o', f', e') = FirstUnused-tail w ws n o (full_word w all) f in
          (o', f', rw all (e ∙ e' i))
      | inr some_clear ↦
          word w ws n i o f e some_clear (first_clear 32 0 w) (first_clear-FirstClear 32 0 w) refl
    ]
  where
    word :
        (w : ℕ) (ws : List ℕ) (n i : ℕ) (o : Option ℕ)
        → FirstUnused ws (n * 32) o
        → first_free n (i + 1) ws ≡ result (i + 1) o
        → (w == 0xffff_ffff) ≡ false
        → (c : Option ℕ) → FirstClear w 0 32 c
        → first_clear 32 0 w ≡ c
        → (o' : Option ℕ) × FirstUnused (w ∷ ws) (suc n * 32) o'
          × (first_free (suc n) i (w ∷ ws) ≡ result i o')
    word w ws n i o f e ne c (at j a h b before) is = (
      some j,
      unused j (omega arith) (used_head w ws j h ∙ b)
          (λ g l. used_head w ws g (omega arith) ∙ before g (omega arith) l),
      rw (ne, is) (omega arith),
    )
    word w ws n i o f e ne c (nowhere all) is =
        let (o', f', e') = FirstUnused-tail w ws n o (λ k h. all k (omega arith) (omega arith)) f in
        (o', f', rw (ne, is) (e ∙ e' i))

-- The frames that the search looks at: those of whole words.
abbrev pub searched : Frames → ℕ
searched f = bit_index f.count * 32

-- If some frame below `searched f` is not used, `frame_get_first_free` gives the first such frame:
-- it is not used, and all before it are.
pub frame_get_first_free-first :
    (f : Frames) (g : ℕ)
    → bit_index f.count ≤ length f.words
    → g < searched f
    → used f.words g ≡ false
    → (used f.words (frame_get_first_free f) ≡ false)
      × (frame_get_first_free f ≤ g)
      × ((k : ℕ) → k < frame_get_first_free f → used f.words k ≡ true)
unfolding frame_get_first_free
frame_get_first_free-first f g l h c =
    let (o, u, e) = first_free-FirstUnused (bit_index f.count) 0 f.words l in read o u e
  where
    read :
        (o : Option ℕ)
        → FirstUnused f.words (searched f) o
        → first_free (bit_index f.count) 0 f.words ≡ result 0 o
        → (used f.words (frame_get_first_free f) ≡ false)
          × (frame_get_first_free f ≤ g)
          × ((k : ℕ) → k < frame_get_first_free f → used f.words k ≡ true)
    read o (full all) e = absurd (false≢true (sym c ∙ all g h))
    read o (unused r b d before) e =
        let same : first_free (bit_index f.count) 0 f.words ≡ r = omega arith in
        rw same (
          d,
          elim (Bool-cases (ltb g r)) [
            | inl early ↦ absurd (false≢true (sym c ∙ before g (ground arith)))
            | inr late ↦ ground arith
          ],
          before,
        )

-- If every frame below `searched f` is used, it gives 0, which is a frame that is in use too.
pub frame_get_first_free-full :
    (f : Frames)
    → bit_index f.count ≤ length f.words
    → ((g : ℕ) → g < searched f → used f.words g ≡ true)
    → frame_get_first_free f ≡ 0
unfolding frame_get_first_free
frame_get_first_free-full f l all =
    let (o, u, e) = first_free-FirstUnused (bit_index f.count) 0 f.words l in read o u e
  where
    read :
        (o : Option ℕ)
        → FirstUnused f.words (searched f) o
        → first_free (bit_index f.count) 0 f.words ≡ result 0 o
        → first_free (bit_index f.count) 0 f.words ≡ 0
    read o (full _) e = e
    read o (unused r b d before) e = absurd (false≢true (sym d ∙ all r b))
