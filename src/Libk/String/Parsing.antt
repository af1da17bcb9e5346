-- ===== src/Libk/String/Parsing.antt =====
-- `kstring_parse_intmax` of libk/kstring.c reads what `kstring_format_uintmax` writes.
use native.Mathlib.Nat.{
  div-eq_of_lt, div-add-mod', div-le_self, mod-eq_of_lt, pow-zero, pow-suc, div-one,
  div-div-eq-div-mul, mod-lt,
}
use redshift.Base.{
  ℕ, zero, suc, ◌+◌, ◌-◌, ◌*◌, ◌/◌, ◌%◌, ◌^◌, ◌≤◌, ◌<◌, ◌≡◌, ◌∙◌, refl, sym, ap, Bool, true, false,
  Option, none, some, List, [], ◌∷◌, ◌==◌, ◌&&◌, not, all_below_sound, arith, le→ltb,
}
use redshift.Base.Word.{u64_mod}
use redshift.Libk.Char.{kchar_to_upper_case, kchar_is_digit, kchar_is_alpha, kchar_is_upper_case}
use redshift.Libk.String.{
  Memory, digit_char, digit_value, parse_loop, kstring_parse_intmax, kstring_format_uintmax,
}
use redshift.Libk.String.Formatting.{first_letter, kstring_format_uintmax-digits}

-- The string of `n` bytes at an address.
abbrev pub bytes : Memory → (a n : ℕ) → List ℕ
bytes mem a zero = []
bytes mem a (suc n) = mem a ∷ bytes mem (suc a) n

-- A character other than NUL and the minus sign, that stands for the digit `r`.
abbrev is_digit_of : (c r : ℕ) → Option ℕ → Bool
is_digit_of c r none = false
is_digit_of c r (some d) = d == r && not (c == 0) && not (c == 45)

abbrev reads_as : Bool → ℕ → Bool
reads_as upper r =
    is_digit_of (digit_char (first_letter upper) r) r
      (digit_value (kchar_to_upper_case (digit_char (first_letter upper) r)))

reads_as-digit : (upper : Bool) (r : ℕ) → r < 36 → reads_as upper r ≡ true
unfolding kchar_to_upper_case kchar_is_digit kchar_is_alpha kchar_is_upper_case
reads_as-digit true r h = all_below_sound 36 (reads_as true) r refl h
reads_as-digit false r h = all_below_sound 36 (reads_as false) r refl h

digit_of :
    (c r : ℕ) (o : Option ℕ)
    → is_digit_of c r o ≡ true
    → (o ≡ some r) × ((c == 0) ≡ false) × ((c == 45) ≡ false)
digit_of c r none h = absurd (ground (arith, h))
digit_of c r (some d) h = (ap some (ground arith), ground arith, ground arith)

char_reads :
    (upper : Bool) (r : ℕ)
    → r < 36
    → (digit_value (kchar_to_upper_case (digit_char (first_letter upper) r)) ≡ some r)
      × ((digit_char (first_letter upper) r == 0) ≡ false)
      × ((digit_char (first_letter upper) r == 45) ≡ false)
char_reads upper r h = digit_of (digit_char (first_letter upper) r) r _ (reads_as-digit upper r h)

parse_step :
    (number base c d : ℕ) (s : List ℕ)
    → (c == 0) ≡ false
    → digit_value (kchar_to_upper_case c) ≡ some d
    → parse_loop number base (c ∷ s) ≡ parse_loop ((number * base + d) % u64_mod) base s
unfolding parse_loop
parse_step number base c d s z e = rw (z, e)

parse_end : (number base : ℕ) → parse_loop number base [] ≡ some number
unfolding parse_loop
parse_end number base = refl

-- From the digits above the lowest `j`, reading those `j` digits gives the number.
parse_loop-digits :
    (mem : Memory) (a j base v : ℕ) (upper : Bool)
    → 2 ≤ base
    → base ≤ 36
    → v < u64_mod
    → ((i : ℕ)
        → i < j
        → mem (a + i) ≡ digit_char (first_letter upper) (v / base ^ (j - 1 - i) % base))
    → parse_loop (v / base ^ j) base (bytes mem a j) ≡ some v
parse_loop-digits mem a zero base v upper b b' w h =
    parse_end (v / base ^ 0) base ∙ ap some (ap (λ q. v / q) (pow-zero base) ∙ div-one v)
parse_loop-digits mem a (suc j) base v upper b b' w h =
    let r : ℕ = v / base ^ j % base in
    let here : mem a ≡ digit_char (first_letter upper) r =
      ap mem (omega arith)
      ∙ h 0 (omega arith)
      ∙ ap (λ q. digit_char (first_letter upper) (v / base ^ q % base)) (omega arith) in
    let (reads, nul, minus) =
      char_reads upper r (omega (arith, mod-lt (v / base ^ j) {m = base} (omega arith))) in
    let number : (v / base ^ suc j * base + r) % u64_mod ≡ v / base ^ j =
      ap (λ q. (q * base + r) % u64_mod)
        (ap (λ q. v / q) (pow-suc base j) ∙ sym (div-div-eq-div-mul v (base ^ j) base))
      ∙ ap (λ q. q % u64_mod) (div-add-mod' (v / base ^ j) base)
      ∙ mod-eq_of_lt (omega (arith, div-le_self v (base ^ j))) in
    ap (λ c. parse_loop (v / base ^ suc j) base (c ∷ bytes mem (suc a) j)) here
    ∙ parse_step (v / base ^ suc j) base (digit_char (first_letter upper) r) r (bytes mem (suc a) j)
        nul reads
    ∙ ap (λ q. parse_loop q base (bytes mem (suc a) j)) number
    ∙ parse_loop-digits mem (suc a) j base v upper b b' w (λ i l.
      ap mem (omega arith)
      ∙ h (suc i) (omega arith)
      ∙ ap (λ q. digit_char (first_letter upper) (v / base ^ q % base)) (omega arith))

parse_from :
    (mem : Memory) (a k base v : ℕ) (upper : Bool) (r : ℕ)
    → 2 ≤ base
    → r < 36
    → mem a ≡ digit_char (first_letter upper) r
    → parse_loop 0 base (bytes mem a (suc k)) ≡ some v
    → kstring_parse_intmax (bytes mem a (suc k)) base ≡ v
unfolding kstring_parse_intmax
parse_from mem a k base v upper r b small e p =
    let minus : (mem a == 45) ≡ false = ap (λ c. c == 45) e ∙ (char_reads upper r small).2 in
    rw (le→ltb base 2 b, minus, p)

-- A number of 64 bits that is below `base ^ n` is written, to a base from 2 to 36, in a buffer of `n + 1`
-- bytes that are all NULs, as a string that parses to the same number.
pub kstring_parse_intmax-format :
    (mem : Memory) (buffer n value base : ℕ) (upper : Bool)
    → 2 ≤ base
    → base ≤ 36
    → 1 ≤ n
    → value < base ^ n
    → value < u64_mod
    → ((i : ℕ) → i ≤ n → mem (buffer + i) ≡ 0)
    → (mem' : Memory) × (k : ℕ) × (kstring_format_uintmax mem buffer n value base upper
        ≡ (mem', suc k))
      × (mem' (buffer + suc k) ≡ 0)
      × (kstring_parse_intmax (bytes mem' buffer (suc k)) base ≡ value)
kstring_parse_intmax-format mem buffer n value base upper b b' n1 small wide nuls =
    let (mem', k, e, room, fits, ds, ended) =
      kstring_format_uintmax-digits mem buffer n value base upper b b' n1 small nuls in
    let parsed : parse_loop (value / base ^ suc k) base (bytes mem' buffer (suc k)) ≡ some value =
      parse_loop-digits mem' buffer (suc k) base value upper b b' wide (λ i h.
        ds i (omega arith)
        ∙ ap (λ q. digit_char (first_letter upper) (value / base ^ q % base)) (omega arith)) in
    let first : mem' buffer ≡ digit_char (first_letter upper) (value / base ^ (k - 0) % base) =
      ap mem' (omega arith) ∙ ds 0 (omega arith) in
    (
      mem',
      k,
      e,
      ended,
      parse_from mem' buffer k base value upper (value / base ^ (k - 0) % base) b
          (omega (arith, mod-lt (value / base ^ (k - 0)) {m = base} (omega arith))) first
          (ap (λ q. parse_loop q base (bytes mem' buffer (suc k))) (sym (div-eq_of_lt fits))
            ∙ parsed),
    )
