-- ===== src/Examples/Tables.antt =====
-- The theorems on arch/i686/boot at the kernel's own descriptors.
use redshift.Base.{some, ℕ, ◌/◌, ◌^◌, ◌≡◌, ◌≢◌, arith}
use redshift.Boot.Descriptors.{GdtEntry, GdtEntries, gdt_entry}
use redshift.Boot.Descriptors.Unpacking.{gdt_base, gdt_limit, gdt_entry-read}

abbrev empty_entry : GdtEntry
empty_entry = record {
  limit_low = 0;
  base_low = 0;
  base_mid = 0;
  access = 0;
  granularity = 0;
  base_high = 0;
}

abbrev empty_table : GdtEntries
empty_table i = empty_entry

-- A segment for the state of the task.
gdt_entry-read_example :
    (after : GdtEntries) × (gdt_entry 5 0x0012_3456 0x68 0x89 0x40 empty_table ≡ some after)
    × (gdt_base (after 5) ≡ 0x0012_3456)
    × (gdt_limit (after 5) ≡ 0x68)
    × ((after 5).access ≡ 0x89)
    × ((after 5).granularity / 2 ^ 4 ≡ 4)
    × ((j : ℕ) → j ≢ 5 → after j ≡ empty_entry)
gdt_entry-read_example =
    gdt_entry-read 5 0x0012_3456 0x68 0x89 0x40 empty_table (omega arith) (omega arith)
      (omega arith) (omega arith)
