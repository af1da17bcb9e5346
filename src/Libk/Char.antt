-- ===== src/Libk/Char.antt =====
-- libk/kchar.c: the character classes, a table of 128 entries of flags, and the case conversions.
-- A character is its code, below 128; what lies behind the table is not modelled, and reads as 0.
pub mod Classes
use Prim.Native.Nat.{bit_or}
use redshift.Base.{ℕ, ◌+◌, ◌-◌, Bool, not, ◌||◌, List, [], ◌∷◌, if◌then◌else◌, get_or}
use redshift.Base.Word.{test_flag}

abbrev alnum : ℕ
alnum = 1

abbrev alpha : ℕ
alpha = 2

abbrev blank : ℕ
blank = 4

abbrev cntrl : ℕ
cntrl = 8

abbrev digit : ℕ
digit = 16

abbrev graph : ℕ
graph = 32

abbrev lower : ℕ
lower = 64

abbrev print : ℕ
print = 128

abbrev punct : ℕ
punct = 256

abbrev space : ℕ
space = 512

abbrev upper : ℕ
upper = 1024

abbrev xdigit : ℕ
xdigit = 2048

-- The sets of flags that the rows of the table hold.
abbrev control : ℕ
control = cntrl

abbrev control_space : ℕ
control_space = bit_or cntrl space

abbrev blank_print : ℕ
blank_print = bit_or space print

abbrev punctuation : ℕ
punctuation = bit_or punct (bit_or graph print)

abbrev decimal : ℕ
decimal = bit_or digit (bit_or xdigit (bit_or alnum (bit_or graph print)))

abbrev upper_hex : ℕ
upper_hex = bit_or upper (bit_or alpha (bit_or alnum (bit_or graph (bit_or print xdigit))))

abbrev upper_letter : ℕ
upper_letter = bit_or upper (bit_or alpha (bit_or alnum (bit_or graph print)))

abbrev lower_hex : ℕ
lower_hex = bit_or lower (bit_or alpha (bit_or alnum (bit_or graph (bit_or print xdigit))))

abbrev lower_letter : ℕ
lower_letter = bit_or lower (bit_or alpha (bit_or alnum (bit_or graph print)))

abbrev kchar_table : List ℕ
kchar_table =
    control ∷ control ∷ control ∷ control ∷ control ∷ control ∷ control ∷ control ∷ control
    ∷ control_space ∷ control_space ∷ control_space ∷ control_space ∷ control_space ∷ control_space
    ∷ control ∷ control ∷ control ∷ control ∷ control ∷ control ∷ control ∷ control ∷ control
    ∷ control ∷ control ∷ control ∷ control ∷ control ∷ control ∷ control ∷ control ∷ blank_print
    ∷ punctuation ∷ punctuation ∷ punctuation ∷ punctuation ∷ punctuation ∷ punctuation
    ∷ punctuation ∷ punctuation ∷ punctuation ∷ punctuation ∷ punctuation ∷ punctuation
    ∷ punctuation ∷ punctuation ∷ punctuation ∷ decimal ∷ decimal ∷ decimal ∷ decimal ∷ decimal
    ∷ decimal ∷ decimal ∷ decimal ∷ decimal ∷ decimal ∷ punctuation ∷ punctuation ∷ punctuation
    ∷ punctuation ∷ punctuation ∷ punctuation ∷ punctuation ∷ upper_hex ∷ upper_hex ∷ upper_hex
    ∷ upper_hex ∷ upper_hex ∷ upper_hex ∷ upper_letter ∷ upper_letter ∷ upper_letter ∷ upper_letter
    ∷ upper_letter ∷ upper_letter ∷ upper_letter ∷ upper_letter ∷ upper_letter ∷ upper_letter
    ∷ upper_letter ∷ upper_letter ∷ upper_letter ∷ upper_letter ∷ upper_letter ∷ upper_letter
    ∷ upper_letter ∷ upper_letter ∷ upper_letter ∷ upper_letter ∷ punctuation ∷ punctuation
    ∷ punctuation ∷ punctuation ∷ punctuation ∷ punctuation ∷ lower_hex ∷ lower_hex ∷ lower_hex
    ∷ lower_hex ∷ lower_hex ∷ lower_hex ∷ lower_letter ∷ lower_letter ∷ lower_letter ∷ lower_letter
    ∷ lower_letter ∷ lower_letter ∷ lower_letter ∷ lower_letter ∷ lower_letter ∷ lower_letter
    ∷ lower_letter ∷ lower_letter ∷ lower_letter ∷ lower_letter ∷ lower_letter ∷ lower_letter
    ∷ lower_letter ∷ lower_letter ∷ lower_letter ∷ lower_letter ∷ punctuation ∷ punctuation
    ∷ punctuation ∷ punctuation ∷ control ∷ []

unfoldable pub kchar_is_alnum : ℕ → Bool
kchar_is_alnum c = test_flag (get_or kchar_table c 0) alnum

unfoldable pub kchar_is_alpha : ℕ → Bool
kchar_is_alpha c = test_flag (get_or kchar_table c 0) alpha

unfoldable pub kchar_is_blank : ℕ → Bool
kchar_is_blank c = test_flag (get_or kchar_table c 0) blank

unfoldable pub kchar_is_control : ℕ → Bool
kchar_is_control c = test_flag (get_or kchar_table c 0) cntrl

unfoldable pub kchar_is_digit : ℕ → Bool
kchar_is_digit c = test_flag (get_or kchar_table c 0) digit

unfoldable pub kchar_is_graphical : ℕ → Bool
kchar_is_graphical c = test_flag (get_or kchar_table c 0) graph

unfoldable pub kchar_is_lower_case : ℕ → Bool
kchar_is_lower_case c = test_flag (get_or kchar_table c 0) lower

unfoldable pub kchar_is_printable : ℕ → Bool
kchar_is_printable c = test_flag (get_or kchar_table c 0) print

unfoldable pub kchar_is_punctuation : ℕ → Bool
kchar_is_punctuation c = test_flag (get_or kchar_table c 0) punct

unfoldable pub kchar_is_space : ℕ → Bool
kchar_is_space c = test_flag (get_or kchar_table c 0) space

unfoldable pub kchar_is_upper_case : ℕ → Bool
kchar_is_upper_case c = test_flag (get_or kchar_table c 0) upper

unfoldable pub kchar_is_hex_digit : ℕ → Bool
kchar_is_hex_digit c = test_flag (get_or kchar_table c 0) xdigit

unfoldable pub kchar_to_lower_case : ℕ → ℕ
kchar_to_lower_case c = if not (kchar_is_alpha c) || kchar_is_lower_case c then c else c - 65 + 97

unfoldable pub kchar_to_upper_case : ℕ → ℕ
kchar_to_upper_case c = if not (kchar_is_alpha c) || kchar_is_upper_case c then c else c - 97 + 65
