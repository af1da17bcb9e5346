-- ===== src/Mem/Heap/Headers.antt =====
-- Headers and footers of arch/i686/mem/heap.c: what is written where.
use redshift.Base.{ℕ, ◌+◌, ◌*◌, ◌%◌, ◌≤◌, ◌<◌, ◌≡◌, ◌≢◌, ◌∙◌, ◌⊎◌, true, inl, inr, arith, ◌==◌}
use redshift.Base.Word.{u32_mod}
use redshift.Libk.String.{Memory}
use redshift.Libk.Memory.{kmemory_fill8, kmemory_zero}
use redshift.Libk.Memory.Filling.{IsCleared, kmemory_zero-IsCleared}
use redshift.Libk.Memory.Words.{load-store_word, load-store_other, store_outside}
use redshift.Mem.Heap.Blocks.{
  magic_of, flags_of, size_of, block_magic, place_header, place_footer, footer_place,
  get_footer_address, set_word, header_of, get_usable_address, plus,
}
use redshift.Mem.Heap.Freeing.{freed_footer}

fill_same :
    (mem : Memory) (a n : ℕ)
    → (a % 4 == 0) ≡ true
    → (IsCleared a (a + 19) mem (kmemory_fill8 mem a 0 16))
unfolding kmemory_fill8 kmemory_zero
fill_same mem a n e = kmemory_zero-IsCleared mem a 16 e

-- A header stands at `a`, with the three bytes behind it cleared; the other bytes are as before.
pub record IsHeader (mem mem' : Memory) (a size flags : ℕ) : Type 0 where
  pub magic : magic_of mem' a ≡ block_magic
  pub size_is : size_of mem' a ≡ size
  pub flags_are : flags_of mem' a ≡ flags
  pub overrun : (x : ℕ) → a + 16 ≤ x → x < a + 19 → mem' x ≡ 0
  pub kept : (x : ℕ) → (x < a) ⊎ (a + 19 ≤ x) → mem' x ≡ mem x

-- `place_header` at a multiple of 4 writes a header that reads back as it was given, and clears 19
-- bytes for it, which is 3 more than the header has: the first bytes of the memory that the block is
-- to hand out are lost.
pub place_header-IsHeader :
    (mem : Memory) (a size flags : ℕ)
    → (a % 4 == 0) ≡ true
    → size < u32_mod
    → flags < u32_mod
    → IsHeader mem (place_header mem a size flags) a size flags
unfolding place_header
place_header-IsHeader mem a size flags e s f =
    let m0 = kmemory_fill8 mem a 0 16 in
    let m1 = set_word m0 a block_magic in
    let m2 = set_word m1 (a + 8) size in
    let (cleared, same) = fill_same mem a 16 e in
    let outside : (x : ℕ) → (x < a) ⊎ (a + 12 ≤ x) → set_word m2 (a + 4) flags x ≡ m0 x = λ x h.
      store_outside m2 (a + 4) flags 4 x (ground (arith, h))
      ∙ store_outside m1 (a + 8) size 4 x (ground (arith, h))
      ∙ store_outside m0 a block_magic 4 x (ground (arith, h)) in
    record {
      magic =
          load-store_other m2 (a + 4) flags 4 a 4 (inl (omega arith))
          ∙ load-store_other m1 (a + 8) size 4 a 4 (inl (omega arith))
          ∙ load-store_word m0 a block_magic (omega arith);
      size_is =
          load-store_other m2 (a + 4) flags 4 (a + 8) 4 (inr (omega arith))
          ∙ load-store_word m1 (a + 8) size s;
      flags_are = load-store_word m2 (a + 4) flags f;
      overrun = λ x l h. outside x (inr (omega arith)) ∙ cleared x (omega arith) h;
      kept = λ x h. outside x (ground (arith, h)) ∙ same x h;
    }

-- The footer stands in one place, and the two functions that look for it give two others.
pub record IsMisplaced (mem mem' : Memory) (header : ℕ) : Type 0 where
  pub magic : magic_of mem' (footer_place mem header) ≡ block_magic
  pub linked : header_of mem' (footer_place mem header) ≡ header
  pub not_behind : footer_place mem header ≢ get_footer_address mem header
  pub not_freed : footer_place mem header ≢ freed_footer mem header
  pub differ : get_footer_address mem header ≢ freed_footer mem header

-- For a block whose size, taken 16 times, stays in the address space, `place_footer` writes a footer
-- that leads to the header, but in another place than `get_footer_address` and `heap_free` look for
-- it, which are two different places too.
pub place_footer-IsMisplaced :
    (mem : Memory) (header : ℕ)
    → 16 ≤ header
    → header + 16 * size_of mem header < u32_mod
    → header + 16 + size_of mem header < u32_mod
    → IsMisplaced mem (place_footer mem header) header
unfolding place_footer footer_place get_footer_address get_usable_address freed_footer
place_footer-IsMisplaced mem header h e e' =
    let footer = plus header (16 * size_of mem header) in
    let cleared = kmemory_fill8 mem footer 0 16 in
    record {
      magic =
          load-store_other (set_word cleared footer block_magic) (footer + 4) header 4 footer 4
            (inl (omega arith))
          ∙ load-store_word cleared footer block_magic (omega arith);
      linked =
          load-store_word (set_word cleared footer block_magic) (footer + 4) header (omega arith);
      not_behind = λ x. omega arith;
      not_freed = λ x. omega arith;
      differ = λ x. omega arith;
    }
