-- ===== src/Libk/Format/Padding.antt =====
-- `do_string` of libk/kstring_format.c: the padding, the copy, and how far they go.
use redshift.Base.{
  ℕ, zero, suc, ◌+◌, ◌-◌, ◌≤◌, ◌<◌, ◌≡◌, ◌∙◌, refl, sym, subst, ap, ◌⊎◌, inl, inr, Bool, true,
  false, ◌&&◌, List, min, arith, ltb, ltb→lt, Bool-cases, if◌then◌else◌,
}
use redshift.Base.Word.{u32_mod}
use redshift.Libk.String.{kstring_length, kstring_copy}
use redshift.Libk.String.Copying.{Copied, kstring_copy-Copied}
use redshift.Libk.Format.Output.{Flags, Out, put, pad, difference, put_string, do_string}

-- From `o` to `o'`, `j` pad characters were written, and nothing else.
abbrev pub IsPadded : (c j : ℕ) (o o' : Out) → Type 0
IsPadded c j o o' =
    (o'.p ≡ o.p + j)
    × ((i : ℕ) → i < j → o'.mem (o.p + i) ≡ c)
    × ((a : ℕ) → (a < o.p) ⊎ (o.p + j ≤ a) → o'.mem a ≡ o.mem a)

IsPadded-none : (c : ℕ) (o : Out) → IsPadded c 0 o o
IsPadded-none c o = (omega arith, (λ i h. absurd (omega arith)), λ a h. refl)

IsPadded-one : (c j : ℕ) (o o' : Out) → IsPadded c j (put c o) o' → IsPadded c (suc j) o o'
IsPadded-one c j o o' (moved, filled, kept) =
    (omega (arith, moved), bytes, λ a h. ground (arith, h, kept a))
  where
    bytes : (i : ℕ) → i < suc j → o'.mem (o.p + i) ≡ c
    bytes zero h = ground (arith, kept o.p)
    bytes (suc i) h = ap o'.mem (omega arith) ∙ filled i (omega arith)

pad_full : (c q n : ℕ) (o : Out) → ltb o.p q ≡ false → pad c q (suc n) o ≡ o
unfolding pad
pad_full c q n o e = rw e

pad_step : (c q n : ℕ) (o : Out) → ltb o.p q ≡ true → pad c q (suc n) o ≡ pad c q n (put c o)
unfolding pad
pad_step c q n o e = rw e

pad_zero : (c q : ℕ) (o : Out) → pad c q 0 o ≡ o
unfolding pad
pad_zero c q o = refl

pad-IsPadded : (c q n : ℕ) (o : Out) → IsPadded c (min n (q - o.p)) o (pad c q n o)
pad-IsPadded c q zero o =
    subst (λ j. IsPadded c j o (pad c q 0 o)) (omega arith)
      (subst (IsPadded c 0 o) (sym (pad_zero c q o)) (IsPadded-none c o))
pad-IsPadded c q (suc n) o = elim (Bool-cases (ltb o.p q)) [
  | inr e ↦
      let none_left : 0 ≡ min (suc n) (q - o.p) = ground arith in
      subst (λ j. IsPadded c j o (pad c q (suc n) o)) none_left
        (subst (IsPadded c 0 o) (sym (pad_full c q n o e)) (IsPadded-none c o))
  | inl e ↦
      let l = ltb→lt o.p q e in
      let one_more : suc (min n (q - suc o.p)) ≡ min (suc n) (q - o.p) = omega arith in
      subst (λ j. IsPadded c j o (pad c q (suc n) o)) one_more
        (subst (IsPadded c (suc (min n (q - suc o.p))) o) (sym (pad_step c q n o e)) (
          IsPadded-one c (min n (q - suc o.p)) o (pad c q n (put c o))
            (pad-IsPadded c q n (put c o))))
]

-- The string was copied from `o` to `o'`: whole, where there is any room, and else not at all.
abbrev pub IsCopied : (q : ℕ) → List ℕ → (n : ℕ) → (o o' : Out) → Type 0
IsCopied q s n o o' =
    (o'.p ≡ o.p + (if ltb o.p q then min n (kstring_length s) else 0))
    × Copied o.mem o'.mem o.p o'.p s

put_string-Result :
    (q : ℕ) (s : List ℕ) (n : ℕ) (o : Out)
    → ((put_string q s n o).p ≡ o.p + min (min (difference o.p q) n) (kstring_length s))
      × Copied o.mem (put_string q s n o).mem o.p (put_string q s n o).p s
unfolding put_string
put_string-Result q s n o =
    let (mem', end) = kstring_copy o.mem o.p s (min (difference o.p q) n) in
    let (e, c) = kstring_copy-Copied o.mem o.p s (min (difference o.p q) n) in
    (e, subst (λ l. Copied o.mem mem' o.p l s) (sym e) c)

-- The difference wraps round, so it is no bound while there is room.
difference_room :
    (p q n : ℕ) → p < q → q < u32_mod → n + q ≤ p + u32_mod → min (difference p q) n ≡ n
difference_room p q n l w h = omega arith

difference_full : (p n : ℕ) → min (difference p p) n ≡ 0
difference_full p n = omega arith

put_string-IsCopied :
    (q : ℕ) (s : List ℕ) (n : ℕ) (o : Out)
    → o.p ≤ q
    → q < u32_mod
    → n + q ≤ o.p + u32_mod
    → IsCopied q s n o (put_string q s n o)
put_string-IsCopied q s n o l w h =
    let (e, c) = put_string-Result q s n o in
    elim (Bool-cases (ltb o.p q)) [
      | inl t ↦ (
        e
            ∙ ap (λ k. o.p + min k (kstring_length s))
                (difference_room o.p q n (ltb→lt o.p q t) w h)
            ∙ rw t refl,
        c,
      )
      | inr t ↦
          let same : o.p ≡ q = ground arith in
          (
            e
                ∙ ap (λ k. o.p + min (min (difference o.p k) n) (kstring_length s)) (sym same)
                ∙ ap (λ k. o.p + min k (kstring_length s)) (difference_full o.p n)
                ∙ rw t (omega arith),
            c,
          )
    ]

abbrev pub pad_char : Flags → (is_number : Bool) → ℕ
pad_char flags is_number = if is_number && flags.zero_pad then 48 else 32

abbrev pub padding_of : Flags → (n : ℕ) → ℕ
padding_of flags n = flags.field_width - n

-- The padding stands in front of the string, or behind it, and stops at the end of the buffer.
abbrev pub IsJustified : (left : Bool) → (c k q : ℕ) → List ℕ → (n : ℕ) → (o o' : Out) → Type 0
IsJustified true c k q s n o o' =
    (mid : Out) × IsPadded c (min k (q - o.p)) o mid × IsCopied q s n mid o'
IsJustified false c k q s n o o' =
    (mid : Out) × IsCopied q s n o mid × IsPadded c (min k (q - mid.p)) mid o'

padding_lem :
    (flags : Flags) (n : ℕ)
    → (if ltb n flags.field_width then flags.field_width - n else 0) ≡ padding_of flags n
padding_lem flags n = ground arith

module _ (flags : Flags) (q : ℕ) (s : List ℕ) (n : ℕ) (is_number : Bool) (o : Out) where
  do_string_left :
      flags.left_pad ≡ true
      → do_string flags q s n is_number o
        ≡ put_string q s n (pad (pad_char flags is_number) q (padding_of flags n) o)
  unfolding do_string
  do_string_left e =
      rw e (ap (λ k. put_string q s n (pad (pad_char flags is_number) q k o)) (padding_lem flags n))

  do_string_right :
      flags.left_pad ≡ false
      → do_string flags q s n is_number o
        ≡ pad (pad_char flags is_number) q (padding_of flags n) (put_string q s n o)
  unfolding do_string
  do_string_right e =
      rw e (ap (λ k. pad (pad_char flags is_number) q k (put_string q s n o)) (padding_lem flags n))

-- From inside the buffer, `do_string` pads a field to its width, in front of the string or behind it
-- as `left_pad` says, with zeros for a number that asks for them. The padding stops at the end of the
-- buffer; the string does not: where one byte is left, all its first `n` characters are copied, and
-- the NUL behind them, and only where none is left, none is.
pub do_string-IsJustified :
    (flags : Flags) (q : ℕ) (s : List ℕ) (n : ℕ) (is_number : Bool) (o : Out)
    → o.p ≤ q
    → q < u32_mod
    → n + q ≤ o.p + u32_mod
    → IsJustified flags.left_pad
        (pad_char flags is_number)
        (padding_of flags n)
        q
        s
        n
        o
        (do_string flags q s n is_number o)
do_string-IsJustified flags q s n is_number o l w h = elim (Bool-cases flags.left_pad) [
  | inl e ↦
      let c = pad_char flags is_number in
      let mid = pad c q (padding_of flags n) o in
      let p = pad-IsPadded c q (padding_of flags n) o in
      subst (λ b. IsJustified b c (padding_of flags n) q s n o (do_string flags q s n is_number o))
        (sym e)
        (subst (IsJustified true c (padding_of flags n) q s n o)
          (sym (do_string_left flags q s n is_number o e))
          (mid, p, put_string-IsCopied q s n mid (omega (arith, p.0)) w (omega (arith, p.0))))
  | inr e ↦
      let c = pad_char flags is_number in
      let mid = put_string q s n o in
      subst (λ b. IsJustified b c (padding_of flags n) q s n o (do_string flags q s n is_number o))
        (sym e)
        (subst (IsJustified false c (padding_of flags n) q s n o)
          (sym (do_string_right flags q s n is_number o e))
          (mid, put_string-IsCopied q s n o l w h, pad-IsPadded c q (padding_of flags n) mid))
]
