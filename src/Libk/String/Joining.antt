-- ===== src/Libk/String/Joining.antt =====
-- libk/kstring.c: finding a string in another, joining and duplicating strings, signed numbers.
use redshift.Base.{
  ℕ, suc, ◌+◌, ◌-◌, ◌%◌, ◌≡◌, ◌≢◌, ◌∙◌, refl, sym, Bool, true, ◌&&◌, not, Option, none, some, List,
  [], ◌∷◌, ◌++◌, ◌==◌, min, arith, ltb, ne→eqb, Bool-cases, inl, inr, if◌then◌else◌,
}
use redshift.Base.Word.{u32_mod, u64_mod}
use redshift.Libk.String.{
  Memory, write, farther, kstring_length, kstring_copy, kstring_format_uintmax,
}
use redshift.Libk.String.Parsing.{bytes}
use redshift.Libk.String.Copying.{Result, kstring_copy-Copied}

-- `*p` and `p + 1`, for a string whose end reads as NULs.
abbrev first : List ℕ → ℕ
first [] = 0
first (c ∷ s) = c

abbrev behind : List ℕ → List ℕ
behind [] = []
behind (c ∷ s) = s

-- `while ((*pdst++ == *psrc++) && *pdst && *psrc);` and then `*psrc == 0`.
unfoldable pub match_at : (pdst psrc : List ℕ) → Bool
match_at pdst [] = true
match_at pdst (c ∷ psrc) =
    let rest = match_at (behind pdst) psrc in
    if first pdst == c && not (first (behind pdst) == 0) && not (first psrc == 0)
    then rest
    else first psrc == 0

-- The distance of what is found from the start of `dst`.
unfoldable pub kstring_find_str : (dst src : List ℕ) → Option ℕ
kstring_find_str [] src = none
kstring_find_str (c ∷ dst) src =
    let rest = farther (kstring_find_str dst src) in
    if c == 0 then none else if match_at dst src then some 1 else rest

-- `reach` bounds the bytes that are read of the string at `dst`.
unfoldable pub kstring_concatenate :
    (reach : ℕ) → Memory → (dst : ℕ) → (src : List ℕ) → (n : ℕ) → Memory × ℕ
kstring_concatenate reach mem dst src n =
    kstring_copy mem (dst + kstring_length (bytes mem dst reach)) src n

-- `dup` is what `kextern_dynamic_allocate` gives; none is the abort.
unfoldable pub kstring_duplicate : (dup : ℕ) → Memory → (s : List ℕ) → Option (Memory × ℕ)
kstring_duplicate dup mem s =
    if dup == 0 then none else some ((kstring_copy mem dup s (kstring_length s)).0, dup)

-- A signed number of 64 bits; the result of a negative one does not count its sign.
unfoldable pub kstring_format_intmax : Memory → (buf n i base : ℕ) → (upper : Bool) → Memory × ℕ
kstring_format_intmax mem buf n i base upper =
    if ltb i 0x8000_0000_0000_0000
    then kstring_format_uintmax mem buf n i base upper
    else kstring_format_uintmax (write mem buf 45) (suc buf) ((n + u32_mod - 1) % u32_mod)
        (u64_mod - i) base upper

match_one : (pdst : List ℕ) (c : ℕ) → match_at pdst (c ∷ []) ≡ true
unfolding match_at
match_one pdst c = elim (Bool-cases (first pdst == c && not (first (behind pdst) == 0))) [
  | inl e ↦ ground (arith, e)
  | inr e ↦ ground (arith, e)
]

match_at-last :
    (pdst s : List ℕ) (c d : ℕ)
    → c ≢ 0
    → d ≢ 0
    → match_at pdst (s ++ c ∷ []) ≡ match_at pdst (s ++ d ∷ [])
unfolding match_at
match_at-last pdst [] c d c0 d0 = match_one pdst c ∙ sym (match_one pdst d)
match_at-last pdst (x ∷ []) c d c0 d0 =
    rw (ne→eqb c 0 c0, ne→eqb d 0 d0, match_one (behind pdst) c, match_one (behind pdst) d) refl
match_at-last pdst (x ∷ y ∷ s) c d c0 d0 = rw (match_at-last (behind pdst) (y ∷ s) c d c0 d0) refl

-- The last character of the string that is looked for does not matter: where all the others match,
-- the string counts as found. It is not found at the start.
kstring_find_str-last :
    (dst s : List ℕ) (c d : ℕ)
    → c ≢ 0
    → d ≢ 0
    → kstring_find_str dst (s ++ c ∷ []) ≡ kstring_find_str dst (s ++ d ∷ [])
unfolding kstring_find_str
kstring_find_str-last [] s c d c0 d0 = refl
kstring_find_str-last (x ∷ dst) s c d c0 d0 =
    rw (match_at-last dst s c d c0 d0, kstring_find_str-last dst s c d c0 d0) refl

-- Joining writes at most `n` characters of a string and a NUL behind the string that is there.
kstring_concatenate-Result :
    (reach : ℕ) (mem : Memory) (dst : ℕ) (src : List ℕ) (n : ℕ)
    → Result mem
        (dst + kstring_length (bytes mem dst reach))
        (dst + kstring_length (bytes mem dst reach) + min n (kstring_length src))
        src
        (kstring_concatenate reach mem dst src n)
unfolding kstring_concatenate
kstring_concatenate-Result reach mem dst src n =
    kstring_copy-Copied mem (dst + kstring_length (bytes mem dst reach)) src n
