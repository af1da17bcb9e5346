-- ===== src/Boot/Modules.antt =====
-- src/boot/boot_module.c: the modules that the boot loader leaves in memory.
pub mod End
use redshift.Base.{ℕ, zero, suc, ◌+◌, ◌%◌, List, [], ◌∷◌, ◌++◌, ltb, ◌==◌, if◌then◌else◌}
use redshift.Base.Word.{u32_mod}
use redshift.Libk.String.{Memory, kstring_length}
use redshift.Libk.String.Parsing.{bytes}
use redshift.Boot.Multiboot.{Walked, done, walk_tags, first_tag, tag_type, tag_module, member}

-- `struct boot_module`, with a copy of its command line.
pub record BootModule : Type 0 where
  pub start : ℕ
  pub end : ℕ
  pub cmdline : List ℕ

-- The static variable `modules`; the list ends in an unused node, which is left out.
pub record Modules : Type 0 where
  pub list : List BootModule
  pub count : ℕ
  pub end : ℕ

-- `struct multiboot2_tag_module`
abbrev pub module_start : Memory → ℕ → ℕ
module_start mem tag = member mem tag 8

abbrev pub module_end : Memory → ℕ → ℕ
module_end mem tag = member mem tag 12

unfoldable pub visit_module : Memory → (tag : ℕ) → Modules → Walked Modules
visit_module mem tag s =
    if tag_type mem tag == tag_module
    then (if ltb s.end (module_end mem tag)
        then done (record s { end = module_end mem tag })
        else done s)
    else done s

unfoldable pub discover_boot_modules :
    (fuel : ℕ) → Memory → (mb_tags : ℕ) → Modules → Walked Modules
discover_boot_modules fuel mem mb_tags s =
    walk_tags fuel mem (visit_module mem) (first_tag mb_tags) s

-- `reach` bounds the bytes that are read of a command line.
unfoldable pub save_module : (reach : ℕ) → Memory → (tag : ℕ) → Modules → Walked Modules
save_module reach mem tag s =
    let text = bytes mem (tag + 16) reach in
    if tag_type mem tag == tag_module
    then done (record s {
      list =
          s.list
          ++ record {
            start = module_start mem tag;
            end = module_end mem tag;
            cmdline = bytes mem (tag + 16) (kstring_length text);
          }
            ∷ [];
      count = (s.count + 1) % u32_mod;
    })
    else done s

unfoldable pub save_boot_modules :
    (fuel reach : ℕ) → Memory → (mb_tags : ℕ) → Modules → Walked Modules
save_boot_modules fuel reach mem mb_tags s =
    walk_tags fuel mem (save_module reach mem) (first_tag mb_tags) (record s { list = [] })

abbrev pub boot_modules_end : Modules → ℕ
boot_modules_end s = s.end

abbrev pub boot_modules_count : Modules → ℕ
boot_modules_count s = s.count
