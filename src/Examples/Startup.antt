-- ===== src/Examples/Startup.antt =====
-- The theorems on src/boot/boot_module.c and src/kernel/symbols.c at short inputs.
use redshift.Base.{All, List, ◌≡◌, refl, some, none, [], ◌∷◌, arith, leb, if◌then◌else◌}
use redshift.Libk.String.{Memory}
use redshift.Libk.Memory.{load, store}
use redshift.Boot.Multiboot.{done}
use redshift.Boot.Multiboot.Chain.{IsChain}
use redshift.Boot.Modules.{Modules, discover_boot_modules, boot_modules_end}
use redshift.Boot.Modules.End.{highest_end, discover_boot_modules-end}
use redshift.Kernel.Symbols.{Symbol, load_symbol_table, get_symbol_name}
use redshift.Kernel.Symbols.Listing.{Entry, IsEntry, load_symbol_table-text}
use redshift.Libk.Char.{kchar_is_space, kchar_is_alpha, kchar_is_alnum}
use redshift.Kernel.Symbols.Lookup.{get_symbol_name-lowest}
use redshift.Examples.Bytes.{no_bytes}

-- A module from 0x4000 to 0x5000, and the end tag.
abbrev module_tags : Memory
module_tags = store (store (store (store no_bytes 108 3 4) 112 16 4) 116 0x4000 4) 120 0x5000 4

abbrev no_modules : Modules
no_modules = record { list = []; count = 0; end = 0 }

module_tags-IsChain : IsChain module_tags 108 (108 ∷ [])
unfolding load store
module_tags-IsChain = (refl, (λ e. omega arith), refl)

discover_boot_modules-end_example :
    (after : Modules) × (discover_boot_modules 2 module_tags 100 no_modules ≡ done after)
    × (boot_modules_end after ≡ highest_end module_tags (108 ∷ []) 0)
discover_boot_modules-end_example =
    discover_boot_modules-end 2 module_tags 100 (108 ∷ []) no_modules module_tags-IsChain
      (omega arith)

abbrev low_symbol : Symbol
low_symbol = record { name = 97 ∷ []; address = 0x10_0000 }

abbrev high_symbol : Symbol
high_symbol = record { name = 98 ∷ []; address = 0x10_2000 }

get_symbol_name-lowest_example :
    get_symbol_name 0x10_0000 0x11_0000 (low_symbol ∷ high_symbol ∷ []) 0x10_3000
    ≡ (if leb 0x10_0000 0x10_3000 then some (97 ∷ []) else none)
get_symbol_name-lowest_example =
    get_symbol_name-lowest 0x10_0000 0x11_0000 0x10_3000 low_symbol (high_symbol ∷ []) (omega arith)
      (omega arith) (omega arith, tt)

-- The lines `1F s_` and `20 _t`.
abbrev two_entries : List Entry
two_entries =
    record { digits = 1 ∷ 15 ∷ []; head = 115; tail = 95 ∷ [] }
    ∷ record { digits = 2 ∷ 0 ∷ []; head = 95; tail = 116 ∷ [] }
    ∷ []

two_entries-IsEntry : All IsEntry two_entries
unfolding kchar_is_space kchar_is_alpha kchar_is_alnum
two_entries-IsEntry = (
  record {
    short_address = omega arith;
    short_name = omega arith;
    digits = (omega arith, (omega arith, tt));
    start = refl;
    head = (refl, refl, λ z. omega (arith, z));
    tail = ((refl, refl, λ z. omega (arith, z)), tt);
  },
  (
    record {
      short_address = omega arith;
      short_name = omega arith;
      digits = (omega arith, (omega arith, tt));
      start = refl;
      head = (refl, refl, λ z. omega (arith, z));
      tail = ((refl, refl, λ z. omega (arith, z)), tt);
    },
    tt,
  ),
)

load_symbol_table-text_example :
    load_symbol_table 0 12 (49 ∷ 70 ∷ 32 ∷ 115 ∷ 95 ∷ 10 ∷ 50 ∷ 48 ∷ 32 ∷ 95 ∷ 116 ∷ 10 ∷ [])
    ≡ some (
        record { name = 115 ∷ 95 ∷ []; address = 0x1f }
        ∷ record { name = 95 ∷ 116 ∷ []; address = 0x20 }
        ∷ [])
load_symbol_table-text_example =
    load_symbol_table-text two_entries 0 12 two_entries-IsEntry (omega arith) (omega arith)
      (omega arith, (omega arith, tt))
