-- ===== src/Libk/Format/Output.antt =====
-- libk/kstring_format.c: the flags, and the functions that write one formatted argument.
-- A `va_list` is a pointer to 32-bit words, as on i686, and is passed by value. `none` is the abort of
-- `UNREACHABLE`.
use redshift.Base.{
  ℕ, zero, suc, ◌+◌, ◌-◌, ◌*◌, ◌%◌, Bool, true, false, ◌&&◌, ◌||◌, not, Option, none, some, List,
  [], ◌∷◌, ltb, leb, ◌==◌, if◌then◌else◌, min,
}
use redshift.Base.Word.{u32_mod, u64_mod}
use redshift.Libk.String.{Memory, write, kstring_length, kstring_copy, kstring_format_uintmax}
use redshift.Libk.String.Parsing.{bytes}

abbrev pub Args : Type 0
Args = ℕ → ℕ

-- `va_list` behind its first `k` words.
abbrev pub skip : ℕ → Args → Args
skip k args i = args (i + k)

-- `struct format_flags`; the two `int`s are 32-bit numbers. `type_width` is one of the `FMT_` codes.
pub record Flags : Type 0 where
  pub left_pad : Bool
  pub sign : ℕ
  pub zero_pad : Bool
  pub hex_upper : Bool
  pub type_width : ℕ
  pub type_signed : Bool
  pub prefix : Bool
  pub base : ℕ
  pub field_width : ℕ
  pub precision : ℕ

abbrev pub defaults : Flags
defaults = record {
  left_pad = true;
  sign = 0;
  zero_pad = false;
  hex_upper = false;
  type_width = 2;
  type_signed = true;
  prefix = false;
  base = 10;
  field_width = 0;
  precision = 0;
}

-- The memory, the static buffer of `format_number` from address 0, and the pointer `*pp`.
pub record Out : Type 0 where
  pub mem : Memory
  pub buffer : Memory
  pub p : ℕ

-- `*p++ = c`
abbrev pub put : ℕ → Out → Out
put c o = record o { mem = write o.mem o.p c; p = suc o.p }

-- `for (; padding > 0 && p < q; --padding, ++p) *p = pad_char`
unfoldable pub pad : (c q padding : ℕ) → Out → Out
pad c q zero o = o
pad c q (suc padding) o = let rest = pad c q padding (put c o) in if ltb o.p q then rest else o

-- `q - p` as a `size_t` or an `ssize_t`.
abbrev pub difference : (a b : ℕ) → ℕ
difference a b = (a + u32_mod - b) % u32_mod

abbrev pub is_negative : ℕ → Bool
is_negative n = leb 0x8000_0000 n

-- The copy, of at most `MIN((size_t)(p - q), n)` characters.
unfoldable pub put_string : (q : ℕ) → List ℕ → (n : ℕ) → Out → Out
put_string q s n o =
    let (mem', end) = kstring_copy o.mem o.p s (min (difference o.p q) n) in
    record o { mem = mem'; p = end }

unfoldable pub do_string : Flags → (q : ℕ) → List ℕ → (n : ℕ) → (is_number : Bool) → Out → Out
do_string flags q s n is_number o =
    let pad_char = if is_number && flags.zero_pad then 48 else 32 in
    let padding = if ltb n flags.field_width then flags.field_width - n else 0 in
    if flags.left_pad
    then put_string q s n (pad pad_char q padding o)
    else pad pad_char q padding (put_string q s n o)

-- Whether a type of that width takes two words, or none for one that has no case.
abbrev pub is_wide : (type_width : ℕ) → Option Bool
is_wide type_width = if ltb 7 type_width then none else some (type_width == 4 || type_width == 5)

abbrev pub va_wide : Args → ℕ
va_wide args = args 0 + u32_mod * args 1

-- An `int` as an `intmax_t`.
abbrev pub sign_extend : ℕ → ℕ
sign_extend w = if is_negative w then w + u64_mod - u32_mod else w

-- `neg` and `value`
unfoldable pub number_value : Flags → Args → Option (Bool × ℕ)
number_value flags args = elim (is_wide flags.type_width) [
  | none ↦ none
  | some wide ↦
      if flags.type_signed
      then (let tmp = if wide then va_wide args else sign_extend (args 0) in
          if ltb tmp 0x8000_0000_0000_0000 then some (false, tmp) else some (true, u64_mod - tmp))
      else some (false, if wide then va_wide args else args 0)
]

unfoldable pub put_sign : Flags → (neg : Bool) → Out → Out
put_sign flags neg o =
    if neg
    then put 45 o
    else if flags.sign == 1
    then put 43 o
    else if flags.sign == 2
    then put 32 o
    else o

unfoldable pub put_prefix : Flags → Out → Out
put_prefix flags o =
    if not flags.prefix
    then o
    else if flags.base == 16
    then put (if flags.hex_upper then 88 else 120) (put 48 o)
    else if flags.base == 8
    then put 48 o
    else if flags.base == 2
    then put 98 o
    else o

abbrev pub number_max : ℕ
number_max = 64

-- The digits, written in the static buffer and copied from there.
unfoldable pub put_digits : Flags → (q value : ℕ) → Out → Out
put_digits flags q value o =
    let (buffer, n) =
      kstring_format_uintmax o.buffer 0 number_max value flags.base flags.hex_upper in
    do_string flags q (bytes buffer 0 n) n true (record o { buffer = buffer })

unfoldable pub format_number : Flags → (q : ℕ) → Args → Out → Option Out
format_number flags q args o = elim (number_value flags args) [
  | none ↦ none
  | some (neg, value) ↦ some (put_digits flags q value (put_prefix flags (put_sign flags neg o)))
]

-- How many characters of a string of `n` the precision leaves.
abbrev pub limited : Flags → ℕ → ℕ
limited flags n =
    if ltb 0 flags.precision && not (is_negative flags.precision) && ltb flags.precision n
    then flags.precision
    else n

-- `reach` bounds the bytes that are read of a string.
unfoldable pub format_string : (reach : ℕ) → Flags → (q : ℕ) → Args → Out → Out
format_string reach flags q args o =
    let s = bytes o.mem (args 0) reach in
    do_string flags q s (limited flags (kstring_length s)) false o

unfoldable pub format_char : Flags → (q : ℕ) → Args → Out → Out
format_char flags q args o = do_string flags q (args 0 % 256 ∷ 0 ∷ []) 1 false o

unfoldable pub format_pointer : Flags → (q : ℕ) → Args → Out → Option Out
format_pointer flags q args o =
    format_number
      (record {
        left_pad = true;
        sign = 0;
        zero_pad = true;
        hex_upper = true;
        type_width = 3;
        type_signed = false;
        prefix = flags.prefix;
        base = 16;
        field_width = 8;
        precision = 0;
      })
      q args o
