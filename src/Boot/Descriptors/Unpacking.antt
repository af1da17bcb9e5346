-- ===== src/Boot/Descriptors/Unpacking.antt =====
-- What the descriptors of arch/i686/boot/gdt.c and arch/i686/boot/idt.c mean to the processor.
use redshift.Base.{
  ℕ, zero, suc, ◌+◌, ◌*◌, ◌/◌, ◌%◌, ◌^◌, ◌≤◌, ◌<◌, ◌≡◌, ◌≢◌, ◌∙◌, refl, ap, ◌⊎◌, inl, inr, ◌==◌,
  arith, Bool-cases, lt→ltb, some, if◌then◌else◌, eqb→eq, eqb_refl, ne→eqb,
}
use redshift.Base.Word.{u32_mod}
use redshift.Boot.Descriptors.{
  GdtEntry, GdtEntries, gdt_entries_max, packed, gdt_entry, IdtEntry, IdtEntries, idt_entry,
  idt_stubs, idt_init, no_entry,
}

-- The base and the limit that the processor reads, and the flags above the limit.
abbrev pub gdt_base : GdtEntry → ℕ
gdt_base e = e.base_low + e.base_mid * 2 ^ 16 + e.base_high * 2 ^ 24

abbrev pub gdt_limit : GdtEntry → ℕ
gdt_limit e = e.limit_low + e.granularity % 2 ^ 4 * 2 ^ 16

abbrev pub idt_base : IdtEntry → ℕ
idt_base e = e.base_low + e.base_high * 2 ^ 16

-- A descriptor with a base of 32 bits, at one of the seven indices, is read with that base, with the
-- lowest 20 bits of the limit, with the access byte and with the upper half of the granularity byte;
-- the other descriptors stay.
pub gdt_entry-read :
    (i base limit access gran : ℕ) (entries : GdtEntries)
    → i < gdt_entries_max
    → base < u32_mod
    → access < 256
    → gran < 256
    → (after : GdtEntries) × (gdt_entry i base limit access gran entries ≡ some after)
      × (gdt_base (after i) ≡ base)
      × (gdt_limit (after i) ≡ limit % 2 ^ 20)
      × ((after i).access ≡ access)
      × ((after i).granularity / 2 ^ 4 ≡ gran / 2 ^ 4)
      × ((j : ℕ) → j ≢ i → after j ≡ entries j)
unfolding gdt_entry
gdt_entry-read i base limit access gran entries h b a g = (
  (λ j. if j == i then packed base limit access gran else entries j),
  rw (lt→ltb i gdt_entries_max h) refl,
  rw (eqb_refl i) (omega arith),
  rw (eqb_refl i) (omega arith),
  rw (eqb_refl i) (omega arith),
  rw (eqb_refl i) (omega arith),
  λ j n. rw (ne→eqb j i n) refl,
)

entry_self :
    (i base : ℕ) (entries : IdtEntries)
    → base < u32_mod
    → idt_base (idt_entry i base 0x08 0x8e entries i) ≡ base
unfolding idt_entry
entry_self i base entries h = rw (eqb_refl i) (omega arith)

entry_ne :
    (i j base : ℕ) (entries : IdtEntries) → j ≢ i → idt_entry i base 0x08 0x8e entries j ≡ entries j
unfolding idt_entry
entry_ne i j base entries h = rw (ne→eqb j i h)

stubs_inside :
    (n first k : ℕ) (stub : ℕ → ℕ) (entries : IdtEntries)
    → ((m : ℕ) → stub m < u32_mod)
    → k < n
    → idt_base (idt_stubs n first stub entries (first + k)) ≡ stub k
unfolding idt_stubs
stubs_inside zero first k stub entries w h = absurd (omega arith)
stubs_inside (suc n) first k stub entries w h = elim (Bool-cases (k == n)) [
  | inl e ↦
      ap (λ q. idt_base (idt_stubs (suc n) first stub entries (first + q))) (eqb→eq k n e)
      ∙ entry_self (first + n) (stub n) (idt_stubs n first stub entries) (w n)
      ∙ ap stub (ground arith)
  | inr e ↦
      ap idt_base (
        entry_ne (first + n) (first + k) (stub n) (idt_stubs n first stub entries)
          (λ q. ground arith))
      ∙ stubs_inside n first k stub entries w (ground arith)
]

stubs_outside :
    (n first j : ℕ) (stub : ℕ → ℕ) (entries : IdtEntries)
    → (j < first) ⊎ (first + n ≤ j)
    → idt_stubs n first stub entries j ≡ entries j
unfolding idt_stubs
stubs_outside zero first j stub entries h = refl
stubs_outside (suc n) first j stub entries h =
    entry_ne (first + n) j (stub n) (idt_stubs n first stub entries) (λ e. ground arith)
    ∙ stubs_outside n first j stub entries (ground arith)

-- Where the stubs lie below 2 ^ 32, the processor reads for each interrupt below 32 the address of
-- its exception stub, for each of the next 16 the address of the stub of the hardware interrupt
-- whose number is less by 32, and an empty entry for any other.
idt_init-stubs :
    (isr irq : ℕ → ℕ)
    → ((m : ℕ) → isr m < u32_mod)
    → ((m : ℕ) → irq m < u32_mod)
    → ((n : ℕ) → n < 32 → idt_base (idt_init isr irq n) ≡ isr n)
      × ((n : ℕ) → n < 16 → idt_base (idt_init isr irq (32 + n)) ≡ irq n)
      × ((n : ℕ) → 48 ≤ n → idt_init isr irq n ≡ no_entry)
unfolding idt_init
idt_init-stubs isr irq v w = (
  (λ n h.
      ap idt_base (stubs_outside 16 32 n irq (idt_stubs 32 0 isr (λ i. no_entry)) (inl h))
      ∙ ap (λ q. idt_base (idt_stubs 32 0 isr (λ i. no_entry) q)) (omega arith)
      ∙ stubs_inside 32 0 n isr (λ i. no_entry) v h),
  (λ n h. stubs_inside 16 32 n irq (idt_stubs 32 0 isr (λ i. no_entry)) w h),
  λ n h.
      stubs_outside 16 32 n irq (idt_stubs 32 0 isr (λ i. no_entry)) (inr h)
      ∙ stubs_outside 32 0 n isr (λ i. no_entry) (inr (omega arith)),
)
