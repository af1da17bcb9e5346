-- ===== src/Libk/Format/Rounds.antt =====
-- The loop of `format_arg` of libk/kstring_format.c ends, and each round shortens the format.
use redshift.Base.{
  ℕ, zero, suc, ◌≤◌, ◌<◌, ◌≡◌, ◌⊎◌, refl, sym, subst, inl, inr, true, false, ◌&&◌, not, List, [],
  ◌∷◌, length, ◌==◌, Option, none, some, arith, ltb, Bool-cases, Option-cases, if_cases,
}
use redshift.Libk.Char.{kchar_is_digit}
use redshift.Libk.Format.Output.{
  Args, Flags, Out, is_negative, format_number, format_pointer, number_max,
}
use redshift.Libk.Format.Directives.{
  Formatted, number_formatted, formatted, stopped, tired, Round, again, leave, Conversion, number,
  character, string, pointer, count, take_digits, extract_int, peek, advance, set_flag,
  conversion_of, convert, set_precision, set_width, round, format_arg,
}

-- The loop was not cut off, and what it leaves of the format is not longer than `n`.
abbrev pub Ended : ℕ → Formatted → Type 0
Ended n (formatted ret o fmt) = length fmt ≤ n
Ended n stopped = Unit
Ended n tired = ⊥

abbrev RoundEnded : ℕ → Round → Type 0
RoundEnded n (again flags args fmt) = length fmt ≤ n
RoundEnded n (leave result) = Ended (suc n) result

length-take_digits : (n : ℕ) (fmt : List ℕ) → length (take_digits n fmt).1 ≤ length fmt
unfolding take_digits
length-take_digits zero fmt = omega arith
length-take_digits (suc n) [] = omega arith
length-take_digits (suc n) (c ∷ fmt) = elim (Bool-cases (kchar_is_digit c)) [
  | inl e ↦ rw e (omega (arith, length-take_digits n fmt))
  | inr e ↦ rw e (omega arith)
]

length-extract_int : (fmt : List ℕ) → length (extract_int fmt).1 ≤ length fmt
unfolding extract_int
length-extract_int fmt = length-take_digits number_max fmt

pub length-advance : (fmt : List ℕ) → length (advance fmt) ≤ length fmt
length-advance [] = omega arith
length-advance (c ∷ fmt) = omega arith

number_formatted-Ended :
    (q : ℕ) (fmt : List ℕ) (r : Option Out) → Ended (length fmt) (number_formatted q fmt r)
number_formatted-Ended q fmt none = tt
number_formatted-Ended q fmt (some o) = omega arith

convert-Ended :
    (reach q : ℕ) (k : Conversion) (flags : Flags) (args : Args) (fmt : List ℕ) (o : Out)
    → Ended (length fmt) (convert reach q k flags args fmt o)
unfolding convert
convert-Ended reach q (number base type_signed upper) flags args fmt o =
    number_formatted-Ended q fmt (format_number _ q args o)
convert-Ended reach q character flags args fmt o = omega arith
convert-Ended reach q string flags args fmt o = omega arith
convert-Ended reach q pointer flags args fmt o =
    number_formatted-Ended q fmt (format_pointer flags q args o)
convert-Ended reach q count flags args fmt o = omega arith

set_precision-RoundEnded :
    (flags : Flags) (args : Args) (fmt : List ℕ) (o : Out)
    → RoundEnded (length fmt) (set_precision flags args fmt o)
unfolding set_precision
set_precision-RoundEnded flags args fmt o =
    if_cases (RoundEnded (length fmt)) (kchar_is_digit (peek fmt)) _ _
      (λ d.
        if_cases (RoundEnded (length fmt)) (is_negative (extract_int fmt).0) _ _
          (λ e. omega (arith, length-extract_int fmt)) (λ e. length-extract_int fmt))
      (λ d.
        if_cases (RoundEnded (length fmt)) (peek fmt == 42) _ _ (λ e. length-advance fmt)
          (λ e. omega arith))

-- A digit is taken whenever the first character is one.
length-take_digits_digit :
    (n c : ℕ) (fmt : List ℕ)
    → kchar_is_digit c ≡ true
    → length (take_digits (suc n) (c ∷ fmt)).1 ≤ length fmt
unfolding take_digits
length-take_digits_digit n c fmt e = rw e (length-take_digits n fmt)

length-extract_int_digit :
    (c : ℕ) (fmt : List ℕ) → kchar_is_digit c ≡ true → length (extract_int (c ∷ fmt)).1 ≤ length fmt
unfolding extract_int
length-extract_int_digit c fmt e = length-take_digits_digit 63 c fmt e

set_width-RoundEnded :
    (flags : Flags) (args : Args) (c : ℕ) (fmt : List ℕ) (o : Out)
    → RoundEnded (length fmt) (set_width flags args (c ∷ fmt) o)
unfolding set_width
set_width-RoundEnded flags args c fmt o =
    if_cases (RoundEnded (length fmt)) (kchar_is_digit c) _ _
      (λ d.
        if_cases (RoundEnded (length fmt)) (is_negative (extract_int (c ∷ fmt)).0) _ _
          (λ e. omega (arith, length-extract_int (c ∷ fmt)))
          (λ e. length-extract_int_digit c fmt d))
      (λ d. omega arith)

round-RoundEnded :
    (reach q c : ℕ) (flags : Flags) (args : Args) (fmt : List ℕ) (o : Out)
    → RoundEnded (length fmt) (round reach q c flags args fmt o)
unfolding round
round-RoundEnded reach q c flags args fmt o = elim (Option-cases (set_flag c (peek fmt) flags)) [
  | inr (flags', e) ↦ rw (round, e) (omega arith)
  | inl e ↦ elim (Option-cases (conversion_of c)) [
    | inr (k, e') ↦ rw (round, e, e') (convert-Ended reach q k flags args (c ∷ fmt) o)
    | inl e' ↦
        rw (round, e, e')
          (if_cases (RoundEnded (length fmt)) (c == 42) _ _ (λ d. omega arith)
            (λ d.
              if_cases (RoundEnded (length fmt)) (c == 46) _ _
                (λ d'. set_precision-RoundEnded flags args fmt o)
                (λ d'. set_width-RoundEnded flags args c fmt o)))
  ]
]

-- The format that is left, and the result of the whole, each with an equation to rewrite by.
loop_leaves :
    (fuel reach q c : ℕ) (flags : Flags) (args : Args) (fmt : List ℕ) (o : Out)
    → (ltb o.p q && not (c == 0)) ≡ false
    → format_arg (suc fuel) reach q flags args (c ∷ fmt) o ≡ formatted 0 o (c ∷ fmt)
unfolding format_arg
loop_leaves fuel reach q c flags args fmt o e = rw (format_arg, e)

pub loop_again :
    (fuel reach q c : ℕ) (flags flags' : Flags) (args args' : Args) (fmt fmt' : List ℕ) (o : Out)
    → (ltb o.p q && not (c == 0)) ≡ true
    → round reach q c flags args fmt o ≡ again flags' args' fmt'
    → format_arg (suc fuel) reach q flags args (c ∷ fmt) o
      ≡ format_arg fuel reach q flags' args' fmt' o
unfolding format_arg
loop_again fuel reach q c flags flags' args args' fmt fmt' o e r = rw (format_arg, e, r)

loop_leave :
    (fuel reach q c : ℕ) (flags : Flags) (args : Args) (fmt : List ℕ) (o : Out) (result : Formatted)
    → (ltb o.p q && not (c == 0)) ≡ true
    → round reach q c flags args fmt o ≡ leave result
    → format_arg (suc fuel) reach q flags args (c ∷ fmt) o ≡ result
unfolding format_arg
loop_leave fuel reach q c flags args fmt o result e r = rw (format_arg, e, r)

Round-cases :
    (r : Round)
    → ((flags : Flags) × (args : Args) × (fmt : List ℕ) × (r ≡ again flags args fmt))
      ⊎ ((result : Formatted) × (r ≡ leave result))
Round-cases (again flags args fmt) = inl (flags, args, fmt, refl)
Round-cases (leave result) = inr (result, refl)

Ended-le : (m n : ℕ) (r : Formatted) → m ≤ n → Ended m r → Ended n r
Ended-le m n (formatted ret o fmt) l e = omega arith
Ended-le m n stopped l e = tt
Ended-le m n tired l e = e

pub format_arg-Ended :
    (fuel reach q : ℕ) (flags : Flags) (args : Args) (fmt : List ℕ) (o : Out)
    → length fmt < fuel
    → Ended (length fmt) (format_arg fuel reach q flags args fmt o)
unfolding format_arg
format_arg-Ended zero reach q flags args fmt o l = absurd (omega arith)
format_arg-Ended (suc fuel) reach q flags args [] o l = omega arith
format_arg-Ended (suc fuel) reach q flags args (c ∷ fmt) o l =
    elim (Bool-cases (ltb o.p q && not (c == 0))) [
      | inr e ↦
          subst (Ended (suc (length fmt))) (sym (loop_leaves fuel reach q c flags args fmt o e))
            (omega arith)
      | inl e ↦ elim (Round-cases (round reach q c flags args fmt o)) [
        | inl (flags', args', fmt', r) ↦
            let shorter : length fmt' ≤ length fmt =
              subst (RoundEnded (length fmt)) r (round-RoundEnded reach q c flags args fmt o) in
            subst (Ended (suc (length fmt)))
              (sym (loop_again fuel reach q c flags flags' args args' fmt fmt' o e r))
              (Ended-le (length fmt') (suc (length fmt)) _ (omega arith)
                (format_arg-Ended fuel reach q flags' args' fmt' o (omega arith)))
        | inr (result, r) ↦
            subst (Ended (suc (length fmt)))
              (sym (loop_leave fuel reach q c flags args fmt o result e r))
              (subst (RoundEnded (length fmt)) r (round-RoundEnded reach q c flags args fmt o))
      ]
    ]
