-- ===== src/Libk/Format/Widths.antt =====
-- The widths of arguments in `format_arg` of libk/kstring_format.c.
use redshift.Base.{ℕ, suc, ◌<◌, ◌≡◌, ◌≢◌, refl, sym, ◌∙◌, List, ◌∷◌, ◌==◌, arith, if◌then◌else◌}
use redshift.Libk.Format.Output.{Args, Flags, Out}
use redshift.Libk.Format.Directives.{again, peek, set_flag, round, format_arg}
use redshift.Libk.Format.Rounds.{loop_again}

set_flag-long :
    (reach q after : ℕ) (flags : Flags) (args : Args) (fmt : List ℕ) (o : Out)
    → round reach q 108 flags args fmt o
      ≡ again (record flags { type_width = if peek fmt == 108 then 4 else 3 }) args fmt
unfolding round set_flag
set_flag-long reach q after flags args fmt o = refl

long :
    (fuel reach q : ℕ) (flags : Flags) (args : Args) (fmt : List ℕ) (o : Out)
    → o.p < q
    → format_arg (suc fuel) reach q flags args (108 ∷ fmt) o
      ≡ format_arg fuel reach q
          (record flags { type_width = if peek fmt == 108 then 4 else 3 })
          args
          fmt
          o
long fuel reach q flags args fmt o l =
    loop_again fuel reach q 108 flags _ args args fmt fmt o (ground (arith, l))
      (set_flag-long reach q 0 flags args fmt o)

-- A second `l` undoes the first: a directive with `ll` is read as one with a single `l`, which takes
-- an argument of one word, whatever the flags before it are.
format_arg-long_long :
    (fuel reach q : ℕ) (flags : Flags) (args : Args) (fmt : List ℕ) (o : Out)
    → o.p < q
    → peek fmt ≢ 108
    → format_arg (suc (suc fuel)) reach q flags args (108 ∷ 108 ∷ fmt) o
      ≡ format_arg (suc fuel) reach q flags args (108 ∷ fmt) o
format_arg-long_long fuel reach q flags args fmt o l n =
    long (suc fuel) reach q flags args (108 ∷ fmt) o l
    ∙ long fuel reach q _ args fmt o l
    ∙ sym (long fuel reach q flags args fmt o l)
