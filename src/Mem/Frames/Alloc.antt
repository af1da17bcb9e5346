-- ===== src/Mem/Frames/Alloc.antt =====
-- `frame_alloc` and `frame_free` of arch/i686/mem/paging.c on the bitmap.
use redshift.Base.{
  ℕ, ◌-◌, ◌*◌, ◌/◌, ◌^◌, ◌≤◌, ◌<◌, ◌≡◌, refl, true, false, not, ◌&&◌, ◌||◌, some, ◌∙◌, sym, ap, leb,
  ◌==◌, if◌then◌else◌, length, arith, eqb→eq, Bool-cases, inl, inr, List,
}
use native.Mathlib.Nat.{mod-eq_of_lt}
use redshift.Base.Word.{u32_mod, test_flag}
use redshift.Mem.Align.{page_size}
use redshift.Mem.Frames.{
  Page, Frames, page_present, page_writeable, page_user_mode, frame_set, frame_get_first_free,
  frame_alloc, frame_free, bit_index, bitmap_bytes,
}
use redshift.Mem.Frames.Bitmap.{used, used-frame_set, used-frame_clear}
use redshift.Mem.Frames.Search.{searched, frame_get_first_free-first, frame_get_first_free-full}

-- The array holds a word for each 32 frames, and a frame's address fits in 32 bits.
pub record IsBitmap (f : Frames) : Type 0 where
  pub covers : bit_index f.count ≤ length f.words
  pub small : f.count ≤ 2 ^ 20

-- The page that `frame_alloc` makes for a frame.
abbrev taken : Page → ℕ → ℕ → Page
taken page flags i = record page {
  present = if test_flag flags page_present then 1 else 0;
  rw = if test_flag flags page_writeable then 1 else 0;
  user = if test_flag flags page_user_mode then 1 else 0;
  frame = i;
}

alloc_run :
    (page : Page) (flags : ℕ) (f : Frames)
    → page.frame ≡ 0
    → frame_get_first_free f < 2 ^ 20
    → frame_alloc page flags f
      ≡ some (
        taken page flags (frame_get_first_free f),
        record f { words = frame_set (frame_get_first_free f * page_size) f.words },
      )
unfolding frame_alloc
alloc_run page flags f z h =
    let wide : frame_get_first_free f * page_size < u32_mod = omega arith in
    let low : leb (u32_mod - 1) (frame_get_first_free f) ≡ false = ground arith in
    rw (z, low, mod-eq_of_lt wide, mod-eq_of_lt h)

-- A page without a frame gets one where some frame that the search looks at is not used: the first
-- such frame, which from then on is used, and nothing else changes in the set of used frames or in
-- the interrupt flag. The page is present, writeable and open to user mode as the
-- flags ask.
pub frame_alloc-first :
    (page : Page) (flags : ℕ) (f : Frames) (g : ℕ)
    → IsBitmap f
    → page.frame ≡ 0
    → g < searched f
    → used f.words g ≡ false
    → (page' : Page) × (f' : Frames) × (frame_alloc page flags f ≡ some (page', f'))
      × (used f.words page'.frame ≡ false)
      × ((k : ℕ) → k < page'.frame → used f.words k ≡ true)
      × ((k : ℕ) → used f'.words k ≡ ((k == page'.frame) || used f.words k))
      × (f'.interrupts ≡ f.interrupts)
      × (page'.present ≡ (if test_flag flags page_present then 1 else 0))
      × (page'.rw ≡ (if test_flag flags page_writeable then 1 else 0))
      × (page'.user ≡ (if test_flag flags page_user_mode then 1 else 0))
frame_alloc-first page flags f g v z h c =
    let (free, least, before) = frame_get_first_free-first f g v.covers h c in
    (
      taken page flags (frame_get_first_free f),
      record f { words = frame_set (frame_get_first_free f * page_size) f.words },
      alloc_run page flags f z (omega (arith, v.small)),
      free,
      before,
      λ k. used-frame_set f.words (frame_get_first_free f) k (omega (arith, v.covers)),
      refl,
      refl,
      refl,
      refl,
    )

keep :
    (words : List ℕ) (k r : ℕ)
    → r ≡ 0
    → used words 0 ≡ true
    → ((k == r) || used words k) ≡ used words k
keep words k r z u = elim (Bool-cases (k == r)) [
  | inl e ↦ rw e (sym (ap (used words) (eqb→eq k r e ∙ z) ∙ u))
  | inr e ↦ rw e refl
]

-- Where every frame is used, a page without a frame does not make the call panic: it is
-- present, writeable and open to user mode as the flags ask, its frame is 0, and the set of used frames stays as it is.
pub frame_alloc-full :
    (page : Page) (flags : ℕ) (f : Frames)
    → IsBitmap f
    → page.frame ≡ 0
    → 32 ≤ f.count
    → ((g : ℕ) → g < searched f → used f.words g ≡ true)
    → (page' : Page) × (f' : Frames) × (frame_alloc page flags f ≡ some (page', f'))
      × (page'.frame ≡ 0)
      × (page'.present ≡ (if test_flag flags page_present then 1 else 0))
      × (page'.rw ≡ (if test_flag flags page_writeable then 1 else 0))
      × (page'.user ≡ (if test_flag flags page_user_mode then 1 else 0))
      × ((k : ℕ) → used f'.words k ≡ used f.words k)
frame_alloc-full page flags f v z some_words all =
    let e = frame_get_first_free-full f v.covers all in
    (
      taken page flags (frame_get_first_free f),
      record f { words = frame_set (frame_get_first_free f * page_size) f.words },
      alloc_run page flags f z (omega arith),
      e,
      refl,
      refl,
      refl,
      λ k.
          used-frame_set f.words (frame_get_first_free f) k (omega (arith, v.covers))
          ∙ keep f.words k (frame_get_first_free f) e (all 0 (omega arith)),
    )

-- Freeing a page that has a frame takes the frame away from it, and clears the bit of the frame
-- number divided by the page size, where the bitmap has a word for it, since `frame_clear` wants
-- an address and is given a frame. So the frame of the page stays used, if it was: it is not free
-- again.
frame_free-keeps :
    (page : Page) (f : Frames)
    → 0 < page.frame
    → page.frame / page_size / 32 < length f.words
    → ((frame_free page f).0.frame ≡ 0)
      × (used (frame_free page f).1.words page.frame ≡ used f.words page.frame)
      × ((k : ℕ)
          → used (frame_free page f).1.words k
            ≡ (not (k == page.frame / page_size) && used f.words k))
unfolding frame_free
frame_free-keeps page f pos h =
    let ne : (page.frame == 0) ≡ false = ground arith in
    let other : (page.frame == page.frame / page_size) ≡ false = ground arith in
    rw ne (
      refl,
      used-frame_clear f.words page.frame page.frame h ∙ rw other refl,
      λ k. used-frame_clear f.words page.frame k h,
    )

-- The bitmap that `paging_init` allocates and clears is too short: its bits are fewer than the
-- frames that it is made for, and it holds less than the bytes that the search reads.
pub bitmap_bytes-short :
    (frames_count : ℕ)
    → 32 ≤ frames_count
    → (bitmap_bytes frames_count * 8 < frames_count)
      × (bitmap_bytes frames_count < bit_index frames_count * 4)
unfolding bitmap_bytes
bitmap_bytes-short frames_count h = omega arith
