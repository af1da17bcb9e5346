-- ===== src/Kernel/Printk.antt =====
-- src/kernel/printk.c: messages with a level, in colour, on the console.
-- The static buffers and the memory that the arguments lead to are in the record Out of the formatted
-- output. The interrupt flag is a part of the state, since one path does not restore it. `none` is an
-- abort, a failed assertion, a copy through the whole memory, or that fuel is used up.
use redshift.Base.{
  ℕ, zero, suc, ◌+◌, ◌-◌, Bool, false, ◌&&◌, Option, none, some, List, [], ◌∷◌, ltb, leb, ◌==◌,
  if◌then◌else◌,
}
use redshift.Libk.Char.{kchar_is_digit}
use redshift.Libk.String.{Memory, kstring_length}
use redshift.Libk.Format.Output.{Args, Out}
use redshift.Libk.Format.Printing.{returned, aborted, out_of_fuel, kstring_vformat}
use redshift.Libk.Format.Printing
use redshift.Kernel.Console.{
  Console, console_set_foreground_color, console_set_color, console_get_color, console_write_string,
}

-- The level, and the format behind it.
unfoldable pub handle_printk_level : List ℕ → ℕ × List ℕ
handle_printk_level (a ∷ b ∷ c ∷ fmt) =
    if leb 3 (kstring_length (a ∷ b ∷ c ∷ fmt)) && a == 60 && kchar_is_digit b && c == 62
    then (b - 48, fmt)
    else (1, a ∷ b ∷ c ∷ fmt)
handle_printk_level fmt = (1, fmt)

-- `LOGLEVEL_DEBUG`, `_INFO`, `_WARNING` and `_ERROR` with their colours.
unfoldable pub set_level_formatting : (level : ℕ) → Console → Option Console
set_level_formatting level s =
    if level == 0
    then some (console_set_foreground_color 7 s)
    else if level == 1
    then some (console_set_foreground_color 15 s)
    else if level == 8
    then some (console_set_foreground_color 4 s)
    else if level == 9
    then some (console_set_foreground_color 12 s)
    else none

abbrev vprintk_buffer_size : ℕ
vprintk_buffer_size = 2048

-- The string that stands at an address, without its NUL; it lies in the first `reach` bytes.
unfoldable pub string_at : Memory → (s reach : ℕ) → List ℕ
string_at mem s zero = []
string_at mem s (suc reach) =
    let rest = string_at mem (suc s) reach in if mem s == 0 then [] else mem s ∷ rest

-- What `do_print` returns: the count, the output and the console.
abbrev pub DonePrint : Type 0
DonePrint = ℕ × Out × Console

-- The string of the buffer on the console, and `ASSERT_EQUAL_SSIZE_T(count_1, count_2)`.
unfoldable pub show_buffer :
    (inb : ℕ → ℕ) → (buffer : ℕ) → Console → Printing.Printed → Option DonePrint
show_buffer inb buffer s aborted = none
show_buffer inb buffer s out_of_fuel = none
show_buffer inb buffer s (returned count_1 o) =
    elim (console_write_string inb (string_at o.mem buffer (vprintk_buffer_size + 1)) s) [
      | none ↦ none
      | some (count_2, s') ↦ if count_1 == count_2 then some (count_1, o, s') else none
    ]

-- `buffer` is the address of the static buffer; `fuel` and `reach` are those of `kstring_vformat`.
unfoldable pub do_print :
    (inb : ℕ → ℕ) → (fuel reach buffer : ℕ) → List ℕ → Args → Out → Console → Option DonePrint
do_print inb fuel reach buffer fmt ap o s =
    show_buffer inb buffer s
      (kstring_vformat fuel reach o.mem o.buffer buffer vprintk_buffer_size fmt ap)

-- What `vprintk` returns: the count, the output, the console, and the interrupt flag.
abbrev pub Printed : Type 0
Printed = ℕ × Out × Console × Bool

-- The print between the two changes of colour.
unfoldable pub print_in :
    (inb : ℕ → ℕ)
    → (fuel reach buffer : ℕ) → List ℕ
    → Args
    → Out
    → (colours : ℕ × ℕ) → Bool
    → Option Console
    → Option Printed
print_in inb fuel reach buffer fmt ap o colours interrupts none = none
print_in inb fuel reach buffer fmt ap o (foreground, background) interrupts (some s) =
    elim (do_print inb fuel reach buffer fmt ap o s) [
      | none ↦ none
      | some (ret, o', s') ↦ some (ret, o', console_set_color foreground background s', interrupts)
    ]

-- `minimum` is `MINIMUM_LOG_LEVEL`: 1 in a build with `NDEBUG`, else 0.
unfoldable pub vprintk :
    (minimum : ℕ)
    → (inb : ℕ → ℕ) → (fuel reach buffer : ℕ) → List ℕ
    → Args
    → Out
    → Console
    → (interrupts : Bool) → Option Printed
vprintk minimum inb fuel reach buffer fmt ap o s interrupts =
    let (level, rest) = handle_printk_level fmt in
    if ltb level minimum
    then some (0, o, s, false)
    else print_in inb fuel reach buffer rest ap o (console_get_color s) interrupts
        (set_level_formatting level s)
