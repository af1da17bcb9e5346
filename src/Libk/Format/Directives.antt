-- ===== src/Libk/Format/Directives.antt =====
-- libk/kstring_format.c: what stands behind a `%`.
-- The format is the list of the bytes from its address, the NUL and what lies behind it included,
-- since the code may read there.
use redshift.Base.{
  ℕ, zero, suc, ◌+◌, ◌-◌, ◌/◌, ◌%◌, Bool, true, false, ◌&&◌, ◌||◌, not, Option, none, some, List,
  [], ◌∷◌, ltb, ◌==◌, if◌then◌else◌,
}
use redshift.Base.Word.{u32_mod}
use redshift.Libk.Char.{kchar_is_digit}
use redshift.Libk.String.{Memory, write, kstring_parse_intmax}
use redshift.Libk.Format.Output.{
  Args, skip, Flags, Out, difference, is_negative, format_number, format_string, format_char,
  format_pointer, number_max,
}

-- At most `n` digits from the front of the format, and the format behind them.
unfoldable pub take_digits : (n : ℕ) → List ℕ → List ℕ × List ℕ
take_digits zero fmt = ([], fmt)
take_digits (suc n) [] = ([], [])
take_digits (suc n) (c ∷ fmt) =
    let (digits, rest) = take_digits n fmt in
    if kchar_is_digit c then (c ∷ digits, rest) else ([], c ∷ fmt)

unfoldable pub extract_int : List ℕ → ℕ × List ℕ
extract_int fmt =
    let (digits, rest) = take_digits number_max fmt in
    (kstring_parse_intmax digits 10 % u32_mod, rest)

-- `*fmt` and `fmt + 1`, for a format that ends in NULs.
abbrev pub peek : List ℕ → ℕ
peek [] = 0
peek (c ∷ fmt) = c

abbrev pub advance : List ℕ → List ℕ
advance [] = []
advance (c ∷ fmt) = fmt

-- The cases of the `switch` that set a flag; `after` is the character behind.
unfoldable pub set_flag : (c after : ℕ) → Flags → Option Flags
set_flag c after flags =
    if c == 45
    then some (record flags { left_pad = false })
    else if c == 43
    then some (record flags { sign = 1 })
    else if c == 32
    then some (record flags { sign = 2 })
    else if c == 35
    then some (record flags { prefix = true })
    else if c == 48
    then some (record flags { zero_pad = true })
    else if c == 106
    then some (record flags { type_width = 5 })
    else if c == 122
    then some (record flags { type_width = 6 })
    else if c == 116
    then some (record flags { type_width = 7 })
    else if c == 76
    then some (record flags { type_width = 8 })
    else if c == 113
    then some (record flags { type_width = 4 })
    else if c == 104
    then some (record flags { type_width = if after == 104 then 0 else 1 })
    else if c == 108
    then some (record flags { type_width = if after == 108 then 4 else 3 })
    else none

-- The cases that format an argument.
pub data Conversion : Type 0 where
  number : (base : ℕ) → (type_signed upper : Bool) → Conversion
  character : Conversion
  string : Conversion
  pointer : Conversion
  count : Conversion

unfoldable pub conversion_of : ℕ → Option Conversion
conversion_of c =
    if c == 98
    then some (number 2 false false)
    else if c == 100 || c == 105
    then some (number 10 true false)
    else if c == 111
    then some (number 8 false false)
    else if c == 117
    then some (number 10 false false)
    else if c == 88
    then some (number 16 false true)
    else if c == 120
    then some (number 16 false false)
    else if c == 99
    then some character
    else if c == 115
    then some string
    else if c == 112
    then some pointer
    else if c == 110
    then some count
    else none

-- `*pcount = *pp - p`, a 32-bit word in four bytes.
abbrev pub write_word : Memory → (a v : ℕ) → Memory
write_word mem a v =
    write
      (write (write (write mem a (v % 256)) (a + 1) (v / 256 % 256)) (a + 2) (v / 0x1_0000 % 256))
      (a + 3) (v / 0x100_0000 % 256)

abbrev pub minus_one : ℕ
minus_one = u32_mod - 1

-- What `format_arg` returns, with `*pp` and `*pfmt`.
pub data Formatted : Type 0 where
  formatted : (ret : ℕ) → Out → List ℕ → Formatted
  stopped : Formatted
  tired : Formatted

abbrev pub number_formatted : (q : ℕ) → List ℕ → Option Out → Formatted
number_formatted q fmt none = stopped
number_formatted q fmt (some o) = formatted (difference q o.p) o fmt

abbrev string_formatted : (q : ℕ) → List ℕ → Out → Formatted
string_formatted q fmt o = formatted (difference q o.p) o fmt

unfoldable pub convert : (reach q : ℕ) → Conversion → Flags → Args → List ℕ → Out → Formatted
convert reach q (number base type_signed upper) flags args fmt o = number_formatted q fmt (
    format_number
      (record flags {
        type_signed = type_signed;
        base = base;
        hex_upper = upper || flags.hex_upper;
      })
      q args o)
convert reach q character flags args fmt o = string_formatted q fmt (format_char flags q args o)
convert reach q string flags args fmt o =
    string_formatted q fmt (format_string reach flags q args o)
convert reach q pointer flags args fmt o = number_formatted q fmt (format_pointer flags q args o)
convert reach q count flags args fmt o =
    formatted (if args 0 == 0 then minus_one else 0)
      (record o { mem = write_word o.mem (args 0) 0 }) fmt

-- What one round of the loop of `format_arg` does: it goes on with the flags, the arguments and the
-- format behind, or it leaves.
pub data Round : Type 0 where
  again : Flags → Args → List ℕ → Round
  leave : Formatted → Round

-- The case of `.`, for the format behind it.
unfoldable pub set_precision : Flags → Args → List ℕ → Out → Round
set_precision flags args fmt o =
    let (value, rest) = extract_int fmt in
    if kchar_is_digit (peek fmt)
    then (if is_negative value
        then leave (formatted minus_one o rest)
        else again (record flags { precision = value }) args rest)
    else if peek fmt == 42
    then again (record flags { precision = args 0 }) (skip 1 args) (advance fmt)
    else again (record flags { precision = 0 }) args fmt

-- The `default` case, for the format from its character.
unfoldable pub set_width : Flags → Args → List ℕ → Out → Round
set_width flags args fmt o =
    let (value, rest) = extract_int fmt in
    if kchar_is_digit (peek fmt)
    then (if is_negative value
        then leave (formatted minus_one o rest)
        else again (record flags { field_width = value }) args rest)
    else leave (formatted minus_one o fmt)

-- The `switch` on the character `c`.
unfoldable pub round : (reach q c : ℕ) → Flags → Args → List ℕ → Out → Round
round reach q c flags args fmt o = elim (set_flag c (peek fmt) flags) [
  | some flags' ↦ again flags' args fmt
  | none ↦ elim (conversion_of c) [
    | some conversion ↦ leave (convert reach q conversion flags args (c ∷ fmt) o)
    | none ↦
        if c == 42
        then again (record flags { field_width = args 0 }) (skip 1 args) fmt
        else if c == 46
        then set_precision flags args fmt o
        else set_width flags args (c ∷ fmt) o
  ]
]

-- The loop of `format_arg`, each round on a unit of fuel.
unfoldable pub format_arg : (fuel reach q : ℕ) → Flags → Args → List ℕ → Out → Formatted
format_arg zero reach q flags args fmt o = tired
format_arg (suc fuel) reach q flags args [] o = formatted 0 o []
format_arg (suc fuel) reach q flags args (c ∷ fmt) o = elim (ltb o.p q && not (c == 0)) [
  | false ↦ formatted 0 o (c ∷ fmt)
  | true ↦ elim (round reach q c flags args fmt o) [
    | leave result ↦ result
    | again flags' args' fmt' ↦ format_arg fuel reach q flags' args' fmt' o
  ]
]
