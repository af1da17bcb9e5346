-- ===== src/Libk/Format/Numbers.antt =====
-- `format_number` of libk/kstring_format.c: the digits are those of the argument.
use redshift.Base.{
  refl, List, [], ◌∷◌, ◌==◌, Bool-cases, inl, inr, ℕ, suc, ◌-◌, ◌^◌, ◌≤◌, ◌<◌, ◌≡◌, ◌∙◌, ap, Bool,
  true, false, some, arith, if◌then◌else◌,
}
use redshift.Base.Word.{u32_mod}
use native.Mathlib.Nat.{pow-le-pow_left}
use redshift.Libk.String.{Memory, write, kstring_format_uintmax, kstring_parse_intmax}
use redshift.Libk.String.Parsing.{bytes, kstring_parse_intmax-format}
use redshift.Libk.Format.Output.{
  Args, Flags, Out, is_negative, is_wide, number_value, put_sign, put_prefix, put_digits, do_string,
  format_number, number_max,
}

-- The sign and the magnitude of an argument of one word.
abbrev pub word_value : (type_signed : Bool) → ℕ → Bool × ℕ
word_value true w = if is_negative w then (true, u32_mod - w) else (false, w)
word_value false w = (false, w)

word-narrow : (flags : Flags) → flags.type_width < 4 → is_wide flags.type_width ≡ some false
word-narrow flags h = ground arith

number_value-word :
    (flags : Flags) (args : Args)
    → flags.type_width < 4
    → args 0 < u32_mod
    → number_value flags args ≡ some (word_value flags.type_signed (args 0))
unfolding number_value
number_value-word flags args h w = ground (arith, word-narrow flags h)

put_digits_lem :
    (flags : Flags) (q value n : ℕ) (o : Out) (buffer : Memory)
    → kstring_format_uintmax o.buffer 0 number_max value flags.base flags.hex_upper ≡ (buffer, n)
    → put_digits flags q value o
      ≡ do_string flags q (bytes buffer 0 n) n true (record o { buffer = buffer })
unfolding put_digits
put_digits_lem flags q value n o buffer e =
    ap (λ r. do_string flags q (bytes r.0 0 r.1) r.1 true (record o { buffer = r.0 })) e

format_number_lem :
    (flags : Flags) (q : ℕ) (args : Args) (o : Out) (neg : Bool) (value : ℕ)
    → number_value flags args ≡ some (neg, value)
    → format_number flags q args o
      ≡ some (put_digits flags q value (put_prefix flags (put_sign flags neg o)))
unfolding format_number
format_number_lem flags q args o neg value e = rw (format_number, e)

-- The sign and the prefix are not written in the static buffer.
same-buffer :
    (flags : Flags) (neg : Bool) (o : Out)
    → (put_prefix flags (put_sign flags neg o)).buffer ≡ o.buffer
unfolding put_prefix put_sign
same-buffer flags neg o = ground arith

word_value-lt : (type_signed : Bool) (w : ℕ) → w < u32_mod → (word_value type_signed w).1 < u32_mod
word_value-lt true w h = ground arith
word_value-lt false w h = h

fits : (base value : ℕ) → 2 ≤ base → value < u32_mod → value < base ^ number_max
fits base value b h = omega (arith, pow-le-pow_left b number_max)

-- The characters of a sign, and of a prefix.
abbrev pub sign_text : (sign : ℕ) → (neg : Bool) → List ℕ
sign_text sign true = 45 ∷ []
sign_text sign false = if sign == 1 then 43 ∷ [] else if sign == 2 then 32 ∷ [] else []

abbrev pub prefix_text : (base : ℕ) → (upper : Bool) → List ℕ
prefix_text base upper =
    if base == 16
    then 48 ∷ (if upper then 88 else 120) ∷ []
    else if base == 8
    then 48 ∷ []
    else if base == 2
    then 98 ∷ []
    else []

-- The output with a text behind what is there.
abbrev pub after_text : List ℕ → Out → Out
after_text [] o = o
after_text (c ∷ s) o = after_text s (record o { mem = write o.mem o.p c; p = suc o.p })

put_sign_lem :
    (flags : Flags) (neg : Bool) (o : Out)
    → put_sign flags neg o ≡ after_text (sign_text flags.sign neg) o
unfolding put_sign
put_sign_lem flags true o = refl
put_sign_lem flags false o = elim (Bool-cases (flags.sign == 1)) [
  | inl e ↦ rw (put_sign, e) refl
  | inr e ↦ elim (Bool-cases (flags.sign == 2)) [
    | inl e' ↦ rw (put_sign, e, e') refl
    | inr e' ↦ rw (put_sign, e, e') refl
  ]
]

put_prefix_lem :
    (flags : Flags) (o : Out)
    → put_prefix flags o
      ≡ after_text (if flags.prefix then prefix_text flags.base flags.hex_upper else []) o
unfolding put_prefix
put_prefix_lem flags o = elim (Bool-cases flags.prefix) [
  | inr n ↦ rw (put_prefix, n) refl
  | inl y ↦ elim (Bool-cases (flags.base == 16)) [
    | inl e ↦ rw (put_prefix, y, e) refl
    | inr e ↦ elim (Bool-cases (flags.base == 8)) [
      | inl e' ↦ rw (put_prefix, y, e, e') refl
      | inr e' ↦ elim (Bool-cases (flags.base == 2)) [
        | inl e'' ↦ rw (put_prefix, y, e, e', e'') refl
        | inr e'' ↦ rw (put_prefix, y, e, e', e'') refl
      ]
    ]
  ]
]

-- An argument of one word is written with its sign, a minus sign or what the flags ask for, with the
-- prefix of its base where the flags ask for one, and then, by `do_string`, with digits that parse
-- back to its magnitude, when the static buffer is cleared and the base is from 2 to 36. It is read as a 32-bit number, for
-- `%hhd` and `%hd` too, and a negative one is written as the magnitude of its two's complement.
pub format_number-parses :
    (flags : Flags) (q : ℕ) (args : Args) (o : Out)
    → flags.type_width < 4
    → args 0 < u32_mod
    → 2 ≤ flags.base
    → flags.base ≤ 36
    → ((i : ℕ) → i ≤ number_max → o.buffer i ≡ 0)
    → (buffer : Memory) × (n : ℕ) × (format_number flags q args o
        ≡ some (
            do_string flags q
              (bytes buffer 0 n)
              n
              true
              (record (after_text
                (if flags.prefix then prefix_text flags.base flags.hex_upper else [])
                (after_text (sign_text flags.sign (word_value flags.type_signed (args 0)).0) o)) {
                  buffer = buffer;
                })))
      × (kstring_parse_intmax (bytes buffer 0 n) flags.base
          ≡ (word_value flags.type_signed (args 0)).1)
format_number-parses flags q args o narrow w b b' clear =
    let (neg, value) = word_value flags.type_signed (args 0) in
    let small : value < u32_mod = word_value-lt flags.type_signed (args 0) w in
    let prefixed = put_prefix flags (put_sign flags neg o) in
    let written : prefixed
        ≡ after_text (if flags.prefix then prefix_text flags.base flags.hex_upper else [])
            (after_text (sign_text flags.sign neg) o) =
      put_prefix_lem flags (put_sign flags neg o)
      ∙ ap (after_text (if flags.prefix then prefix_text flags.base flags.hex_upper else []))
          (put_sign_lem flags neg o) in
    let (buffer, k, e, ended, parsed) =
      kstring_parse_intmax-format prefixed.buffer 0 number_max value flags.base flags.hex_upper b b'
        (omega arith) (fits flags.base value b small) (omega arith)
        (λ i h.
          ap prefixed.buffer (omega arith) ∙ ap (λ m. m i) (same-buffer flags neg o) ∙ clear i h) in
    (
      buffer,
      suc k,
      format_number_lem flags q args o neg value (number_value-word flags args narrow w)
          ∙ ap some (put_digits_lem flags q value (suc k) prefixed buffer e)
          ∙ ap
              (λ o'. some (
                do_string flags q (bytes buffer 0 (suc k)) (suc k) true
                  (record o' { buffer = buffer })))
              written,
      parsed,
    )
