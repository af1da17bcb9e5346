-- ===== src/Mem/Frames/Bitmap.antt =====
-- The bitmap of arch/i686/mem/paging.c as a set of frames.
use redshift.Base.{
  ℕ, ◌-◌, ◌*◌, ◌/◌, ◌%◌, ◌^◌, ◌<◌, ◌≡◌, refl, inl, inr, Bool, true, false, not, ◌&&◌, ◌||◌, List,
  ◌∙◌, ap, sym, ◌==◌, get_or, set, length, get_or-set_self, get_or-set_ne, Bool-cases, arith,
  eqb→eq,
}
use redshift.Base.Bits.{
  bit_at, bit_at-bit_and, bit_at-bit_or, bit_at-pow, bit_at-mask, bit_and-pow-eq-zero,
}
use redshift.Mem.Align.{page_size}
use redshift.Mem.Frames.{test_bit, frame_set, frame_clear}

-- Whether the bit of a frame is set.
unfoldable pub used : List ℕ → ℕ → Bool
used words frame = bit_at (frame % 32) (get_or words (frame / 32) 0)

pub test_bit-bit_at : (w j : ℕ) → test_bit w j ≡ bit_at j w
test_bit-bit_at w j = ap not (bit_and-pow-eq-zero w j) ∙ not-not (bit_at j w)
  where
    not-not : (b : Bool) → not (not b) ≡ b
    not-not true = refl
    not-not false = refl

same_place : (g f : ℕ) → (g / 32 == f / 32) ≡ true → (g % 32 == f % 32) ≡ (g == f)
same_place g f e = ground arith

other_place : (g f : ℕ) → (g / 32 == f / 32) ≡ false → (g == f) ≡ false
other_place g f e = ground arith

-- Reading a word back after a write, at the word of another frame.
read_same :
    (words : List ℕ) (f g v : ℕ)
    → f / 32 < length words
    → (g / 32 == f / 32) ≡ true
    → get_or (set words (f / 32) v) (g / 32) 0 ≡ v
read_same words f g v h s =
    ap (λ i. get_or (set words (f / 32) v) i 0) (eqb→eq (g / 32) (f / 32) s)
    ∙ get_or-set_self words (f / 32) v 0 h

read_other :
    (words : List ℕ) (f g v : ℕ)
    → (g / 32 == f / 32) ≡ false
    → get_or (set words (f / 32) v) (g / 32) 0 ≡ get_or words (g / 32) 0
read_other words f g v s = get_or-set_ne words (f / 32) (g / 32) v 0 (λ e. ground arith)

old_word :
    (words : List ℕ) (f g : ℕ)
    → (g / 32 == f / 32) ≡ true
    → get_or words (f / 32) 0 ≡ get_or words (g / 32) 0
old_word words f g s = ap (λ i. get_or words i 0) (sym (eqb→eq (g / 32) (f / 32) s))

-- `frame_set` puts one frame into the set, and leaves the others.
pub used-frame_set :
    (words : List ℕ) (f g : ℕ)
    → f / 32 < length words
    → used (frame_set (f * page_size) words) g ≡ ((g == f) || used words g)
unfolding used frame_set
used-frame_set words f g h =
    let e : f * page_size / page_size ≡ f = omega arith in
    rw e (elim (Bool-cases (g / 32 == f / 32)) [
      | inl s ↦
          ap (bit_at (g % 32)) (read_same words f g _ h s)
          ∙ bit_at-bit_or (g % 32) (get_or words (f / 32) 0) (2 ^ (f % 32))
          ∙ ground (arith, bit_at-pow (g % 32) (f % 32), same_place g f s, old_word words f g s)
      | inr s ↦ ap (bit_at (g % 32)) (read_other words f g _ s) ∙ ground (arith, other_place g f s)
    ])

-- `frame_clear` takes the frame that its address lies in out of the set, and leaves the others.
pub used-frame_clear :
    (words : List ℕ) (addr g : ℕ)
    → addr / page_size / 32 < length words
    → used (frame_clear addr words) g ≡ (not (g == addr / page_size) && used words g)
unfolding used frame_clear
used-frame_clear words addr g h = elim (Bool-cases (g / 32 == addr / page_size / 32)) [
  | inl s ↦
      ap (bit_at (g % 32)) (read_same words (addr / page_size) g _ h s)
      ∙ bit_at-bit_and (g % 32) (get_or words (addr / page_size / 32) 0)
          (2 ^ 32 - 1 - 2 ^ (addr / page_size % 32))
      ∙ ground (
        arith,
        bit_at-mask 32 (g % 32) (addr / page_size % 32),
        same_place g (addr / page_size) s,
        old_word words (addr / page_size) g s,
      )
  | inr s ↦
      ap (bit_at (g % 32)) (read_other words (addr / page_size) g _ s)
      ∙ ground (arith, other_place g (addr / page_size) s)
]
