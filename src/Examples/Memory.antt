-- ===== src/Examples/Memory.antt =====
-- The theorems on src/mem/static.c and arch/i686/mem/paging.c at small memories.
use redshift.Base.{
  ℕ, ◌<◌, ◌≡◌, refl, true, false, ◌||◌, some, List, [], ◌∷◌, map, ◌==◌, if◌then◌else◌, All,
  all_below_sound, arith,
}
use redshift.Base.Bits.{bit_at}
use redshift.Mem.Static.{Region, static_allocs}
use redshift.Mem.Static.Regions.{InRange, Disjoint, static_allocs-Disjoint}
use redshift.Mem.Frames.{Page, Frames, frame_alloc}
use redshift.Mem.Frames.Bitmap.{used}
use redshift.Mem.Frames.Alloc.{frame_alloc-first, frame_alloc-full}
use redshift.Mem.Pages.{Directory, empty_page, page_get}
use redshift.Mem.Pages.Lookup.{page_get-again}

abbrev requests : List (ℕ × ℕ)
requests = (40, 1) ∷ (3, 0) ∷ (4096, 1) ∷ []

static_allocs-Disjoint_example :
    (rs : List Region) × (final : ℕ) × (static_allocs 0x10_0000 0x10_0000 requests
      ≡ some (rs, final))
    × (map (λ r. r.size) rs ≡ 40 ∷ 3 ∷ 4096 ∷ [])
    × All (InRange 0x10_0000 final) rs
    × Disjoint rs
static_allocs-Disjoint_example =
    static_allocs-Disjoint 0x10_0000 0x10_0000 requests (omega arith)
      ((λ e. omega arith), ((λ e. omega arith), ((λ e. omega arith), tt))) (omega arith)

-- Three frames in use, of 64.
abbrev some_frames : Frames
some_frames = record { words = 7 ∷ 0 ∷ []; count = 64; interrupts = true }

abbrev full_frames : Frames
full_frames = record { words = 0xffff_ffff ∷ []; count = 32; interrupts = true }

frame_alloc-first_example :
    (page' : Page) × (f' : Frames) × (frame_alloc empty_page 1 some_frames ≡ some (page', f'))
    × (used (7 ∷ 0 ∷ []) page'.frame ≡ false)
    × ((k : ℕ) → k < page'.frame → used (7 ∷ 0 ∷ []) k ≡ true)
    × ((k : ℕ) → used f'.words k ≡ ((k == page'.frame) || used (7 ∷ 0 ∷ []) k))
    × (f'.interrupts ≡ true)
    × (page'.present ≡ 1)
    × (page'.rw ≡ 0)
    × (page'.user ≡ 0)
unfolding used bit_at
frame_alloc-first_example =
    frame_alloc-first empty_page 1 some_frames 3
      (record { covers = omega arith; small = omega arith }) refl (omega arith) refl

full_frames-used : (g : ℕ) → g < 32 → used (0xffff_ffff ∷ []) g ≡ true
unfolding used bit_at
full_frames-used g h = all_below_sound 32 (used (0xffff_ffff ∷ [])) g refl h

frame_alloc-full_example :
    (page' : Page) × (f' : Frames) × (frame_alloc empty_page 1 full_frames ≡ some (page', f'))
    × (page'.frame ≡ 0)
    × (page'.present ≡ 1)
    × (page'.rw ≡ 0)
    × (page'.user ≡ 0)
    × ((k : ℕ) → used f'.words k ≡ used (0xffff_ffff ∷ []) k)
frame_alloc-full_example =
    frame_alloc-full empty_page 1 full_frames (record { covers = omega arith; small = omega arith })
      refl (omega arith) full_frames-used

-- One table, at 0x5000, for the first 4 MB.
abbrev one_table : Directory
one_table = record {
  tables = λ i. if i == 0 then 0x5000 else 0;
  physical_tables = λ i. if i == 0 then 0x5007 else 0;
  memory = λ a k. empty_page;
}

page_get-again_example :
    page_get 0 0x40_0abc false (page_get 0x6000 0x40_0000 true one_table).1
    ≡ ((page_get 0x6000 0x40_0000 true one_table).0, (page_get 0x6000 0x40_0000 true one_table).1)
page_get-again_example =
    page_get-again 0x6000 0 0x40_0000 0x40_0abc false one_table (λ e. omega arith) refl
