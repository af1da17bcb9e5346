-- ===== src/Libk/String.antt =====
-- libk/kstring.c: strings, and numbers written in them.
-- A string that is only read is the list of the bytes from its address, whose end reads as the NUL.
-- A string that is written lies in memory, a function from addresses to bytes.
pub mod Copying
pub mod Formatting
pub mod Joining
pub mod Parsing
pub mod Reading
pub mod Reversing
use redshift.Base.{
  ℕ, zero, suc, ◌+◌, ◌-◌, ◌*◌, ◌/◌, ◌%◌, ◌^◌, Bool, Option, none, some, List, [], ◌∷◌, ltb, ◌==◌,
  if◌then◌else◌,
}
use redshift.Base.Word.{u32_mod, u64_mod}
use redshift.Libk.Char.{kchar_is_digit, kchar_is_alpha, kchar_to_upper_case, kchar_to_lower_case}

abbrev pub Memory : Type 0
Memory = ℕ → ℕ

abbrev pub write : Memory → ℕ → ℕ → Memory
write mem a v b = if b == a then v else mem b

-- A `char` is signed: its value as a 32-bit number.
abbrev pub char_value : ℕ → ℕ
char_value c = if ltb c 128 then c else c + u32_mod - 256

unfoldable pub kstring_length : List ℕ → ℕ
kstring_length [] = 0
kstring_length (c ∷ s) = if c == 0 then 0 else suc (kstring_length s)

unfoldable pub hash_loop : (h : ℕ) → List ℕ → (n : ℕ) → ℕ
hash_loop h [] n = h
hash_loop h (c ∷ s) zero = h
hash_loop h (c ∷ s) (suc n) =
    if c == 0 then h else hash_loop ((char_value c + h * 33 % u32_mod) % u32_mod) s n

unfoldable pub kstring_hash32 : List ℕ → (n : ℕ) → ℕ
kstring_hash32 s n = hash_loop 5381 s n

abbrev farther : Option ℕ → Option ℕ
farther none = none
farther (some i) = some (suc i)

-- The distance of the character from the start of the string.
unfoldable pub kstring_find_char : List ℕ → (c : ℕ) → Option ℕ
kstring_find_char [] c = none
kstring_find_char (x ∷ s) c =
    let rest = kstring_find_char s c in
    if x == 0 then none else if x == c then some 0 else farther rest

-- An `int` result is a 32-bit number.
unfoldable pub kstring_compare : (s1 s2 : List ℕ) (n : ℕ) → ℕ
kstring_compare s1 s2 zero = 0
kstring_compare [] s2 (suc n) = 0
kstring_compare (c ∷ s1) [] (suc n) = 0
kstring_compare (c ∷ s1) (d ∷ s2) (suc n) =
    let rest = kstring_compare s1 s2 n in
    if c == 0
    then 0
    else if d == 0
    then 0
    else if c == d
    then rest
    else (char_value c + u32_mod - char_value d) % u32_mod

-- The memory, and the address of the NUL that is written last.
unfoldable pub kstring_copy : Memory → (dst : ℕ) (src : List ℕ) (n : ℕ) → Memory × ℕ
kstring_copy mem dst [] n = (write mem dst 0, dst)
kstring_copy mem dst (c ∷ src) zero = (write mem dst 0, dst)
kstring_copy mem dst (c ∷ src) (suc n) =
    if c == 0 then (write mem dst 0, dst) else kstring_copy (write mem dst c) (suc dst) src n

-- `while (*q == 0 && q > p) --q`, with `q` as `p` and the bytes above it.
unfoldable pub trim : Memory → (p above : ℕ) → ℕ
trim mem p zero = 0
trim mem p (suc above) = if mem (p + suc above) == 0 then trim mem p above else suc above

unfoldable pub swap : Memory → (p q : ℕ) → Memory
swap mem p q = write (write mem q (mem p)) p (mem q)

-- `for (; p < q; ++p, --q)`; the fuel is at least the number of rounds.
unfoldable pub swap_loop : (fuel : ℕ) → Memory → (p q : ℕ) → Memory
swap_loop zero mem p q = mem
swap_loop (suc fuel) mem p q =
    if ltb p q then swap_loop fuel (swap mem p q) (p + 1) (q - 1) else mem

unfoldable pub kstring_reverse : Memory → (s n : ℕ) → Memory
kstring_reverse mem s n = swap_loop n mem s (s + trim mem s n)

-- The conversion to `char` keeps the low 8 bits.
abbrev pub digit_char : (alpha rem : ℕ) → ℕ
digit_char alpha rem = if ltb rem 10 then 48 + rem else (alpha + rem - 10) % 256

-- The `do` loop: the memory and how many digits were written, `n` being the room that is left.
unfoldable pub digits : Memory → (p n value divisor alpha : ℕ) → Memory × ℕ
digits mem p zero value divisor alpha = (write mem p (digit_char alpha (value % divisor)), suc zero)
digits mem p (suc n) value divisor alpha =
    let written = write mem p (digit_char alpha (value % divisor)) in
    if value / divisor == 0
    then (written, 1)
    else if n == 0
    then (written, 1)
    else (let (mem', k) = digits written (suc p) n (value / divisor) divisor alpha in (mem', suc k))

unfoldable pub kstring_format_uintmax :
    Memory → (buffer n value base : ℕ) → (upper : Bool) → Memory × ℕ
kstring_format_uintmax mem buffer n value base upper =
    if ltb base 2
    then (mem, 0)
    else (let (mem', k) = digits mem buffer n value base (if upper then 65 else 97) in
        (kstring_reverse mem' buffer k, k))

-- The value of a digit in upper case, or none.
abbrev pub digit_value : ℕ → Option ℕ
digit_value c =
    if kchar_is_digit c
    then some (c - 48)
    else if kchar_is_alpha c
    then some (c - 65 + 10)
    else none

-- The numbers are 64 bits wide.
unfoldable pub parse_loop : (number base : ℕ) → List ℕ → Option ℕ
parse_loop number base [] = some number
parse_loop number base (c ∷ s) =
    if c == 0 then some number else elim (digit_value (kchar_to_upper_case c)) [
      | none ↦ none
      | some d ↦ parse_loop ((number * base + d) % u64_mod) base s
    ]

abbrev or_zero : Option ℕ → ℕ
or_zero none = 0
or_zero (some n) = n

unfoldable pub kstring_parse_intmax : List ℕ → (base : ℕ) → ℕ
kstring_parse_intmax [] base = 0
kstring_parse_intmax (c ∷ s) base =
    if ltb base 2
    then 0
    else if c == 45
    then (u64_mod - or_zero (parse_loop 0 base s)) % u64_mod
    else or_zero (parse_loop 0 base (c ∷ s))

unfoldable pub kstring_to_lower_case : List ℕ → List ℕ
kstring_to_lower_case [] = []
kstring_to_lower_case (c ∷ s) =
    let rest = kstring_to_lower_case s in if c == 0 then c ∷ s else kchar_to_lower_case c ∷ rest

unfoldable pub kstring_to_upper_case : List ℕ → List ℕ
kstring_to_upper_case [] = []
kstring_to_upper_case (c ∷ s) =
    let rest = kstring_to_upper_case s in if c == 0 then c ∷ s else kchar_to_upper_case c ∷ rest
