-- ===== src/Boot/Multiboot.antt =====
-- The tags of src/include/redshift/boot/multiboot2.h in memory, and the loop over them that
-- arch/i686/hal/memory.c and src/boot/boot_module.c share.
pub mod Chain
use redshift.Base.{ℕ, zero, suc, ◌+◌, ◌*◌, ◌/◌, ◌%◌, Option, none, some, ◌==◌, if◌then◌else◌}
use redshift.Base.Word.{u32_mod}
use redshift.Libk.String.{Memory}
use redshift.Libk.Memory.{load}

abbrev pub tag_end : ℕ
tag_end = 0

abbrev pub tag_module : ℕ
tag_module = 3

abbrev pub tag_basic_meminfo : ℕ
tag_basic_meminfo = 4

abbrev pub tag_mmap : ℕ
tag_mmap = 6

-- A 32-bit member of a structure, so many bytes from its address.
abbrev pub member : Memory → (address offset : ℕ) → ℕ
member mem address offset = load mem (address + offset) 4

-- `struct multiboot2_tag`
abbrev pub tag_type : Memory → ℕ → ℕ
tag_type mem tag = member mem tag 0

abbrev pub tag_size : Memory → ℕ → ℕ
tag_size mem tag = member mem tag 4

-- `tag + ((tag->size + 7) & ~7)`
abbrev pub next_tag : Memory → ℕ → ℕ
next_tag mem tag = (tag + (tag_size mem tag + 7) % u32_mod / 8 * 8) % u32_mod

-- What a loop comes to.
pub data Walked (S : Type 0) : Type 0 where
  done : S → Walked S
  out_of_fuel : Walked S

-- The loop over the tags from `tag` on, each on a unit of fuel; `visit` is the body of the loop.
unfoldable pub walk_tags :
    {S : Type 0} → (fuel : ℕ) → Memory → (visit : ℕ → S → Walked S) → (tag : ℕ) → S → Walked S
walk_tags zero mem visit tag s = out_of_fuel
walk_tags (suc fuel) mem visit tag s =
    if tag_type mem tag == tag_end then done s else elim (visit tag s) [
      | out_of_fuel ↦ out_of_fuel
      | done s' ↦ walk_tags fuel mem visit (next_tag mem tag) s'
    ]

-- `mb_tags` leads to 8 bytes that stand before the first tag.
abbrev pub first_tag : (mb_tags : ℕ) → ℕ
first_tag mb_tags = mb_tags + 8
