-- ===== src/Examples/Printing.antt =====
-- The theorems on libk/kstring_format.c at short formats.
use redshift.Base.{ℕ, ◌+◌, ◌≡◌, ◌≢◌, refl, true, false, some, [], ◌∷◌, ◌++◌, min, arith}
use redshift.Libk.String.{Memory, kstring_parse_intmax}
use redshift.Libk.String.Copying.{Copied}
use redshift.Libk.String.Parsing.{bytes}
use redshift.Libk.Format.Output.{Args, Flags, Out, defaults, do_string, format_number}
use redshift.Libk.Format.Printing.{returned, out_of_fuel, kstring_vformat}
use redshift.Libk.Format.Plain.{kstring_vformat-Copied}
use redshift.Libk.Format.Loops.{kstring_vformat-halts}
use redshift.Libk.Format.Padding.{IsJustified, pad_char, padding_of, do_string-IsJustified}
use redshift.Libk.Format.Numbers.{word_value, after_text, format_number-parses}

abbrev no_bytes : Memory
no_bytes a = 0

-- The argument is -5.
abbrev minus_five : Args
minus_five i = 0xffff_fffb

-- "hello" in a buffer of 4 bytes at 100.
kstring_vformat-Copied_example :
    (after : Out) × (kstring_vformat 10 0 no_bytes no_bytes 100 4
        ((104 ∷ 101 ∷ 108 ∷ 108 ∷ 111 ∷ []) ++ 0 ∷ [])
        minus_five
      ≡ returned (min 4 5) after)
    × Copied no_bytes after.mem 100 (100 + min 4 5) (104 ∷ 101 ∷ 108 ∷ 108 ∷ 111 ∷ [])
kstring_vformat-Copied_example =
    kstring_vformat-Copied 10 0 no_bytes no_bytes 100 4 (104 ∷ 101 ∷ 108 ∷ 108 ∷ 111 ∷ []) []
      minus_five (λ e. omega arith) (omega arith)
      (
        ((λ e. omega arith), (λ e. omega arith)),
        (
          ((λ e. omega arith), (λ e. omega arith)),
          (
            ((λ e. omega arith), (λ e. omega arith)),
            (
              ((λ e. omega arith), (λ e. omega arith)),
              (((λ e. omega arith), (λ e. omega arith)), tt),
            ),
          ),
        ),
      )
      (omega arith)

-- "%5d%%".
kstring_vformat-halts_example :
    kstring_vformat 7 0 no_bytes no_bytes 100 80 (37 ∷ 53 ∷ 100 ∷ 37 ∷ 37 ∷ 0 ∷ []) minus_five
    ≢ out_of_fuel
kstring_vformat-halts_example =
    kstring_vformat-halts 7 0 no_bytes no_bytes 100 80 (37 ∷ 53 ∷ 100 ∷ 37 ∷ 37 ∷ 0 ∷ []) minus_five
      (omega arith)

abbrev field_of_five : Flags
field_of_five = record defaults { field_width = 5 }

abbrev at_100 : Out
at_100 = record { mem = no_bytes; buffer = no_bytes; p = 100 }

-- "ab" in a field of 5 characters.
do_string-IsJustified_example :
    IsJustified true
      (pad_char field_of_five false)
      (padding_of field_of_five 2)
      180
      (97 ∷ 98 ∷ [])
      2
      at_100
      (do_string field_of_five 180 (97 ∷ 98 ∷ []) 2 false at_100)
do_string-IsJustified_example =
    do_string-IsJustified field_of_five 180 (97 ∷ 98 ∷ []) 2 false at_100 (omega arith)
      (omega arith) (omega arith)

format_number-parses_example :
    (buffer : Memory) × (n : ℕ) × (format_number field_of_five 180 minus_five at_100
      ≡ some (
          do_string field_of_five 180
            (bytes buffer 0 n)
            n
            true
            (record (after_text (45 ∷ []) at_100) { buffer = buffer })))
    × (kstring_parse_intmax (bytes buffer 0 n) 10 ≡ (word_value true 0xffff_fffb).1)
format_number-parses_example =
    format_number-parses field_of_five 180 minus_five at_100 (omega arith) (omega arith)
      (omega arith) (omega arith) (λ i h. refl)
