-- ===== src/Libk/Format/Printing.antt =====
-- libk/kstring_format.c: `kstring_vformat` and `kstring_format`.
-- `aborted` is the abort of `UNREACHABLE`.
use redshift.Base.{
  ℕ, zero, suc, ◌+◌, true, false, ◌&&◌, not, List, [], ◌∷◌, ltb, ◌==◌, if◌then◌else◌,
}
use redshift.Libk.String.{Memory, write}
use redshift.Libk.Format.Output.{Args, defaults, Out, put, difference, is_negative}
use redshift.Libk.Format.Directives.{
  stopped, tired, peek, advance, formatted, format_arg, minus_one,
}

-- What `kstring_vformat` returns.
pub data Printed : Type 0 where
  returned : (ret : ℕ) → Out → Printed
  aborted : Printed
  out_of_fuel : Printed

-- `*p = 0` and the count.
abbrev pub finish : (start : ℕ) → Out → Printed
finish start o = returned (difference o.p start) (record o { mem = write o.mem o.p 0 })

-- `*p++ = *fmt`, where the buffer is not NULL; the test `count < size` holds in the loop.
abbrev pub put_plain : (start c : ℕ) → Out → Out
put_plain start c o = if start == 0 then o else put c o

-- The loop of `kstring_vformat`; one that needs fuel takes it for `format_arg` too.
unfoldable pub vformat_loop : (fuel reach start q : ℕ) → List ℕ → Args → Out → Printed
vformat_loop zero reach start q fmt args o = out_of_fuel
vformat_loop (suc fuel) reach start q [] args o = finish start o
vformat_loop (suc fuel) reach start q (c ∷ fmt) args o = elim (ltb o.p q && not (c == 0)) [
  | false ↦ finish start o
  | true ↦ elim (c == 37 && not (peek fmt == 37)) [
    | false ↦ vformat_loop fuel reach start q fmt args (put_plain start c o)
    | true ↦ elim (format_arg fuel reach q defaults args fmt o) [
      | stopped ↦ aborted
      | tired ↦ out_of_fuel
      | formatted ret o' fmt' ↦ elim (is_negative ret) [
        | true ↦ returned minus_one o'
        | false ↦ vformat_loop fuel reach start q (advance fmt') args o'
      ]
    ]
  ]
]

-- `digits` is the static buffer of `format_number` as earlier calls left it.
unfoldable pub kstring_vformat :
    (fuel reach : ℕ) → Memory → (digits : Memory) → (buffer size : ℕ) → List ℕ → Args → Printed
kstring_vformat fuel reach mem digits buffer size fmt args =
    vformat_loop fuel reach buffer (buffer + size) fmt args
      (record { mem = mem; buffer = digits; p = buffer })

unfoldable pub kstring_format :
    (fuel reach : ℕ) → Memory → (digits : Memory) → (buffer size : ℕ) → List ℕ → Args → Printed
kstring_format fuel reach mem digits buffer size fmt args =
    kstring_vformat fuel reach mem digits buffer size fmt args
