-- ===== src/Libk/Format/Loops.antt =====
-- The loop of `kstring_vformat` of libk/kstring_format.c ends.
use redshift.Base.{
  ℕ, zero, suc, ◌+◌, ◌≤◌, ◌<◌, ◌≡◌, ◌≢◌, ◌⊎◌, refl, sym, subst, inl, inr, true, false, ◌&&◌, not,
  List, [], ◌∷◌, length, ◌==◌, arith, ltb, Bool-cases,
}
use redshift.Libk.String.{Memory}
use redshift.Libk.Format.Output.{Args, Out, defaults, is_negative}
use redshift.Libk.Format.Directives.{
  Formatted, formatted, stopped, tired, peek, advance, format_arg, minus_one,
}
use redshift.Libk.Format.Printing.{
  Printed, aborted, returned, finish, put_plain, out_of_fuel, vformat_loop, kstring_vformat,
}
use redshift.Libk.Format.Rounds.{length-advance, format_arg-Ended, Ended}

-- How one round of the loop of `kstring_vformat` goes on.
module _ (fuel reach start q : ℕ) (c : ℕ) (fmt : List ℕ) (args : Args) (o : Out) where
  prints_end :
      (ltb o.p q && not (c == 0)) ≡ false
      → vformat_loop (suc fuel) reach start q (c ∷ fmt) args o ≡ finish start o
  unfolding vformat_loop
  prints_end e = rw (vformat_loop, e)

  prints_plain :
      (ltb o.p q && not (c == 0)) ≡ true
      → (c == 37 && not (peek fmt == 37)) ≡ false
      → vformat_loop (suc fuel) reach start q (c ∷ fmt) args o
        ≡ vformat_loop fuel reach start q fmt args (put_plain start c o)
  unfolding vformat_loop
  prints_plain e d = rw (vformat_loop, e, d)

  module _ (e : (ltb o.p q && not (c == 0)) ≡ true)
      (d : (c == 37 && not (peek fmt == 37)) ≡ true) where
    prints_stopped :
        format_arg fuel reach q defaults args fmt o ≡ stopped
        → vformat_loop (suc fuel) reach start q (c ∷ fmt) args o ≡ aborted
    unfolding vformat_loop
    prints_stopped f = rw (vformat_loop, e, d, f)

    prints_error :
        (ret : ℕ) (o' : Out) (fmt' : List ℕ)
        → format_arg fuel reach q defaults args fmt o ≡ formatted ret o' fmt'
        → is_negative ret ≡ true
        → vformat_loop (suc fuel) reach start q (c ∷ fmt) args o ≡ returned minus_one o'
    unfolding vformat_loop
    prints_error ret o' fmt' f n = rw (vformat_loop, e, d, f, n)

    prints_on :
        (ret : ℕ) (o' : Out) (fmt' : List ℕ)
        → format_arg fuel reach q defaults args fmt o ≡ formatted ret o' fmt'
        → is_negative ret ≡ false
        → vformat_loop (suc fuel) reach start q (c ∷ fmt) args o
          ≡ vformat_loop fuel reach start q (advance fmt') args o'
    unfolding vformat_loop
    prints_on ret o' fmt' f n = rw (vformat_loop, e, d, f, n)

-- A result that is not the model's own.
abbrev IsFinal : Printed → Type 0
IsFinal r = r ≢ out_of_fuel

returned-IsFinal : (ret : ℕ) (o : Out) → IsFinal (returned ret o)
returned-IsFinal ret o e = cc

aborted-IsFinal : IsFinal aborted
aborted-IsFinal e = cc

Formatted-cases :
    (n : ℕ) (r : Formatted)
    → Ended n r
    → (r ≡ stopped)
      ⊎ ((ret : ℕ) × (o : Out) × (fmt : List ℕ) × (r ≡ formatted ret o fmt) × (length fmt ≤ n))
Formatted-cases n (formatted ret o fmt) e = inr (ret, o, fmt, refl, e)
Formatted-cases n stopped e = inl refl
Formatted-cases n tired e = absurd e

vformat_loop-IsFinal :
    (fuel reach start q : ℕ) (fmt : List ℕ) (args : Args) (o : Out)
    → length fmt < fuel
    → IsFinal (vformat_loop fuel reach start q fmt args o)
unfolding vformat_loop
vformat_loop-IsFinal zero reach start q fmt args o l = absurd (omega arith)
vformat_loop-IsFinal (suc fuel) reach start q [] args o l = returned-IsFinal _ _
vformat_loop-IsFinal (suc fuel) reach start q (c ∷ fmt) args o l =
    elim (Bool-cases (ltb o.p q && not (c == 0))) [
      | inr e ↦
          subst IsFinal (sym (prints_end fuel reach start q c fmt args o e)) (returned-IsFinal _ _)
      | inl e ↦ elim (Bool-cases (c == 37 && not (peek fmt == 37))) [
        | inr d ↦
            subst IsFinal (sym (prints_plain fuel reach start q c fmt args o e d))
              (vformat_loop-IsFinal fuel reach start q fmt args (put_plain start c o) (omega arith))
        | inl d ↦
            elim (Formatted-cases (length fmt) (format_arg fuel reach q defaults args fmt o)
              (format_arg-Ended fuel reach q defaults args fmt o (omega arith))) [
                | inl f ↦
                    subst IsFinal (sym (prints_stopped fuel reach start q c fmt args o e d f))
                      aborted-IsFinal
                | inr (ret, o', fmt', f, shorter) ↦ elim (Bool-cases (is_negative ret)) [
                  | inl n ↦
                      subst IsFinal
                        (sym (prints_error fuel reach start q c fmt args o e d ret o' fmt' f n))
                        (returned-IsFinal _ _)
                  | inr n ↦
                      subst IsFinal
                        (sym (prints_on fuel reach start q c fmt args o e d ret o' fmt' f n))
                        (vformat_loop-IsFinal fuel reach start q (advance fmt') args o'
                          (omega (arith, shorter, length-advance fmt')))
                ]
              ]
      ]
    ]

-- The loops of `kstring_vformat` and of `format_arg` end: one round for each byte of the format is
-- enough, whatever the directives and the arguments are. The format is what is known of the memory
-- from its address, as a list that ends in NULs.
pub kstring_vformat-halts :
    (fuel reach : ℕ) (mem digits : Memory) (buffer size : ℕ) (fmt : List ℕ) (args : Args)
    → length fmt < fuel
    → kstring_vformat fuel reach mem digits buffer size fmt args ≢ out_of_fuel
unfolding kstring_vformat
kstring_vformat-halts fuel reach mem digits buffer size fmt args l =
    vformat_loop-IsFinal fuel reach buffer (buffer + size) fmt args
      (record { mem = mem; buffer = digits; p = buffer }) l
