-- ===== src/Boot/Descriptors.antt =====
-- arch/i686/boot/gdt.c and arch/i686/boot/idt.c: the packing of addresses into descriptors.
-- A mask of the lowest bits is a remainder, a shift a power of two. The addresses of the stubs in
-- arch/i686/kernel/isr_irq_stub.S are arguments.
pub mod Unpacking
use redshift.Base.{
  ℕ, zero, suc, ◌+◌, ◌*◌, ◌/◌, ◌%◌, ◌^◌, ltb, ◌==◌, Option, none, some, if◌then◌else◌,
}
use redshift.Base.Word.{u32_mod}

-- `struct gdt_entry`
pub record GdtEntry : Type 0 where
  pub limit_low : ℕ
  pub base_low : ℕ
  pub base_mid : ℕ
  pub access : ℕ
  pub granularity : ℕ
  pub base_high : ℕ

abbrev pub GdtEntries : Type 0
GdtEntries = ℕ → GdtEntry

abbrev pub gdt_entries_max : ℕ
gdt_entries_max = 7

-- What is written to an entry. The two parts of `granularity` have no bit in common, so their sum is
-- what `|=` leaves.
abbrev pub packed : (base limit access gran : ℕ) → GdtEntry
packed base limit access gran = record {
  base_low = base % 2 ^ 16;
  base_mid = base / 2 ^ 16 % 2 ^ 8;
  base_high = base / 2 ^ 24 % 2 ^ 8;
  limit_low = limit % 2 ^ 16;
  granularity = limit / 2 ^ 16 % 2 ^ 4 + gran / 2 ^ 4 % 2 ^ 4 * 2 ^ 4;
  access = access % 2 ^ 8;
}

-- `none` is the failed assertion.
unfoldable pub gdt_entry : (i base limit access gran : ℕ) → GdtEntries → Option GdtEntries
gdt_entry i base limit access gran entries =
    if ltb i gdt_entries_max
    then some (λ j. if j == i then packed base limit access gran else entries j)
    else none

infixl 20 ◌>>=◌
abbrev ◌>>=◌ : Option GdtEntries → (GdtEntries → Option GdtEntries) → Option GdtEntries
none >>= f = none
some entries >>= f = f entries

unfoldable pub gdt_init : (tss_base tss_size : ℕ) → GdtEntries → Option GdtEntries
gdt_init tss_base tss_size entries =
    let tss_limit = (tss_base + tss_size) % u32_mod in
    if ltb tss_base tss_limit
    then (do
      e0 ← gdt_entry 0 0 0 0 0 entries
      e1 ← gdt_entry 1 0 0xffff_ffff 0x9a 0xcf e0
      e2 ← gdt_entry 2 0 0xffff_ffff 0x92 0xcf e1
      e3 ← gdt_entry 3 0 0xffff_ffff 0xfa 0xcf e2
      e4 ← gdt_entry 4 0 0xffff_ffff 0xf2 0xcf e3
      gdt_entry 5 tss_base tss_limit 0x89 0x40 e4)
    else none

-- `struct idt_entry`
pub record IdtEntry : Type 0 where
  pub base_low : ℕ
  pub selector : ℕ
  pub reserved : ℕ
  pub flags : ℕ
  pub base_high : ℕ

abbrev pub IdtEntries : Type 0
IdtEntries = ℕ → IdtEntry

unfoldable pub idt_entry : (i base selector flags : ℕ) → IdtEntries → IdtEntries
idt_entry i base selector flags entries j =
    if j == i
    then record {
      base_low = base % 2 ^ 16;
      base_high = base / 2 ^ 16 % 2 ^ 16;
      selector = selector;
      reserved = 0;
      flags = flags;
    }
    else entries j

abbrev pub no_entry : IdtEntry
no_entry = record { base_low = 0; selector = 0; reserved = 0; flags = 0; base_high = 0 }

-- The calls for the stubs 0 to `n - 1`, whose interrupts start at `first`.
unfoldable pub idt_stubs : (n first : ℕ) → (stub : ℕ → ℕ) → IdtEntries → IdtEntries
idt_stubs zero first stub entries = entries
idt_stubs (suc n) first stub entries =
    idt_entry (first + n) (stub n) 0x08 0x8e (idt_stubs n first stub entries)

unfoldable pub idt_init : (isr irq : ℕ → ℕ) → IdtEntries
idt_init isr irq = idt_stubs 16 32 irq (idt_stubs 32 0 isr (λ i. no_entry))
