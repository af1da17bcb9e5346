-- ===== src/Boot/MemoryMap.antt =====
-- arch/i686/hal/memory.c: the sizes of the memory, and the map of its regions.
use redshift.Base.{
  ℕ, zero, suc, ◌+◌, ◌-◌, ◌%◌, Bool, true, false, ◌||◌, not, List, [], ◌∷◌, ◌++◌, ltb, ◌==◌, length,
  if◌then◌else◌,
}
use redshift.Base.Word.{u32_mod, u64_mod}
use redshift.Libk.String.{Memory}
use redshift.Libk.Memory.{load}
use redshift.Boot.Multiboot.{
  Walked, done, out_of_fuel, walk_tags, first_tag, tag_type, tag_size, tag_basic_meminfo, tag_mmap,
  member,
}

-- `struct memory_map`, without the pointer to the next region.
pub record Region : Type 0 where
  pub type_is : ℕ
  pub start : ℕ
  pub end : ℕ

-- The static variable `memory`; its map is a list.
pub record MemoryInfo : Type 0 where
  pub size_lower : ℕ
  pub size_upper : ℕ
  pub map : List Region
  pub size_map : ℕ

unfoldable pub visit_meminfo : Memory → (tag : ℕ) → MemoryInfo → Walked MemoryInfo
visit_meminfo mem tag s =
    if tag_type mem tag == tag_basic_meminfo
    then done (record s { size_lower = member mem tag 8; size_upper = member mem tag 12 })
    else done s

unfoldable pub memory_init : (fuel : ℕ) → Memory → (mb_tags : ℕ) → MemoryInfo → Walked MemoryInfo
memory_init fuel mem mb_tags s = walk_tags fuel mem (visit_meminfo mem) (first_tag mb_tags) s

-- `struct multiboot2_mmap_entry` as a region.
abbrev pub region_at : Memory → (mmap : ℕ) → Region
region_at mem mmap =
    let addr = load mem mmap 8 in
    record {
      type_is = member mem mmap 16;
      start = addr;
      end = (addr + load mem (mmap + 8) 8 + u64_mod - 1) % u64_mod;
    }

-- The static variable, and whether the local `memmap` leads to the last node.
pub record Building : Type 0 where
  pub info : MemoryInfo
  pub started : Bool

-- The body of the loop over the entries.
unfoldable pub add_region : Region → Building → Building
add_region r b =
    let fresh = not b.started || length b.info.map == 0 in
    record {
      info = record b.info {
        map = if fresh then r ∷ [] else b.info.map ++ r ∷ [];
        size_map = (b.info.size_map + 1) % u32_mod;
      };
      started = true;
    }

unfoldable pub entries_loop :
    (fuel : ℕ) → Memory → (entry_size last mmap : ℕ) → Building → Walked Building
entries_loop zero mem entry_size last mmap b = out_of_fuel
entries_loop (suc fuel) mem entry_size last mmap b =
    let rest =
      entries_loop fuel mem entry_size last ((mmap + entry_size) % u32_mod)
        (add_region (region_at mem mmap) b) in
    if ltb mmap last then rest else done b

unfoldable pub visit_mmap : (fuel : ℕ) → Memory → (tag : ℕ) → Building → Walked Building
visit_mmap fuel mem tag b =
    let rest = entries_loop fuel mem (member mem tag 8) (tag + tag_size mem tag) (tag + 16) b in
    if tag_type mem tag == tag_mmap then rest else done b

abbrev info_of : Walked Building → Walked MemoryInfo
info_of out_of_fuel = out_of_fuel
info_of (done b) = done b.info

unfoldable pub memory_map_init :
    (fuel : ℕ) → Memory → (mb_tags : ℕ) → MemoryInfo → Walked MemoryInfo
memory_map_init fuel mem mb_tags s = info_of (
    walk_tags fuel mem (visit_mmap fuel mem) (first_tag mb_tags)
      (record { info = s; started = false }))

abbrev pub memory_map_size : MemoryInfo → ℕ
memory_map_size s = s.size_map

abbrev pub memory_size_total : MemoryInfo → ℕ
memory_size_total s = (s.size_lower + s.size_upper) % u32_mod
