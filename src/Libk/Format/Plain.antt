-- ===== src/Libk/Format/Plain.antt =====
-- `kstring_vformat` of libk/kstring_format.c on a text without directives.
use redshift.Base.{
  ℕ, zero, suc, ◌+◌, ◌-◌, ◌%◌, ◌≤◌, ◌<◌, ◌≡◌, ◌≢◌, ◌∙◌, refl, sym, subst, ap, inl, inr, List, [],
  ◌∷◌, ◌++◌, length, All, min, arith, ltb, Bool-cases, ne→eqb, le→ltb, lt→ltb, ltb→lt,
  if◌then◌else◌,
}
use redshift.Base.Word.{u32_mod}
use redshift.Libk.String.{Memory, write}
use redshift.Libk.String.Copying.{Copied, stops, goes_on}
use redshift.Libk.Format.Output.{Args, Out, difference, put}
use redshift.Libk.Format.Printing.{
  Printed, returned, finish, put_plain, vformat_loop, kstring_vformat,
}

-- No `%` and no NUL.
abbrev pub IsPlain : List ℕ → Type 0
IsPlain s = All (λ c. (c ≢ 37) × (c ≢ 0)) s

loop_plain :
    (fuel reach start q c : ℕ) (fmt : List ℕ) (args : Args) (o : Out)
    → o.p < q
    → c ≢ 0
    → c ≢ 37
    → vformat_loop (suc fuel) reach start q (c ∷ fmt) args o
      ≡ vformat_loop fuel reach start q fmt args (put_plain start c o)
unfolding vformat_loop
loop_plain fuel reach start q c fmt args o l n p =
    rw (vformat_loop, lt→ltb o.p q l, ne→eqb c 0 n, ne→eqb c 37 p)

loop_full :
    (fuel reach start q : ℕ) (c : ℕ) (fmt : List ℕ) (args : Args) (o : Out)
    → q ≤ o.p
    → vformat_loop (suc fuel) reach start q (c ∷ fmt) args o ≡ finish start o
unfolding vformat_loop
loop_full fuel reach start q c fmt args o l = rw (vformat_loop, le→ltb o.p q l)

loop_ends :
    (fuel reach start q : ℕ) (fmt : List ℕ) (args : Args) (o : Out)
    → vformat_loop (suc fuel) reach start q (0 ∷ fmt) args o ≡ finish start o
unfolding vformat_loop
loop_ends fuel reach start q fmt args o = elim (Bool-cases (ltb o.p q)) [
  | inl e ↦ rw (vformat_loop, e)
  | inr e ↦ rw (vformat_loop, e)
]

-- The call returns, with the text copied up to `last`.
record Wrote (start last : ℕ) (text : List ℕ) (o : Out) (r : Printed) : Type 0 where
  after : Out
  returns : r ≡ returned (difference last start) after
  copied : Copied o.mem after.mem o.p last text

finished :
    (start last : ℕ) (text : List ℕ) (o : Out)
    → last ≡ o.p
    → Wrote start last text o (finish start o)
finished start last text o e = record {
  after = record o { mem = write o.mem o.p 0 };
  returns = ap (λ l. returned (difference l start) (record o { mem = write o.mem o.p 0 })) (sym e);
  copied = (stops o.mem o.p last text e).1;
}

Wrote-one :
    (start last c : ℕ) (text : List ℕ) (o : Out) (r : Printed)
    → suc o.p ≤ last
    → Wrote start last text (put c o) r
    → Wrote start last (c ∷ text) o r
Wrote-one start last c text o r l w = record {
  after = w.after;
  returns = w.returns;
  copied = (goes_on o.mem o.p last c text (w.after.mem, last) l (refl, w.copied)).1;
}

vformat_loop-Wrote :
    (fuel reach start q : ℕ) (text rest : List ℕ) (args : Args) (o : Out)
    → start ≢ 0
    → IsPlain text
    → length text < fuel
    → o.p ≤ q
    → Wrote start
        (o.p + min (q - o.p) (length text))
        text
        o
        (vformat_loop fuel reach start q (text ++ 0 ∷ rest) args o)
vformat_loop-Wrote zero reach start q text rest args o n p f l = absurd (omega arith)
vformat_loop-Wrote (suc fuel) reach start q [] rest args o n p f l =
    subst (Wrote start _ [] o) (sym (loop_ends fuel reach start q rest args o))
      (finished start (o.p + min (q - o.p) 0) [] o (omega arith))
vformat_loop-Wrote (suc fuel) reach start q (c ∷ text) rest args o n (pc, p) f l =
    elim (Bool-cases (ltb o.p q)) [
      | inr e ↦
          let full : q ≤ o.p = ground arith in
          subst (Wrote start _ (c ∷ text) o)
            (sym (loop_full fuel reach start q c (text ++ 0 ∷ rest) args o full))
            (finished start (o.p + min (q - o.p) (suc (length text))) (c ∷ text) o (omega arith))
      | inl e ↦
          let room = ltb→lt o.p q e in
          let last : suc o.p + min (q - suc o.p) (length text)
              ≡ o.p + min (q - o.p) (suc (length text)) =
            omega arith in
          subst (Wrote start _ (c ∷ text) o)
            (sym (loop_plain fuel reach start q c (text ++ 0 ∷ rest) args o room pc.1 pc.0))
            (subst
              (λ b. Wrote start (o.p + min (q - o.p) (suc (length text))) (c ∷ text) o (
                vformat_loop fuel reach start q (text ++ 0 ∷ rest) args (if b then o else put c o)))
              (sym (ne→eqb start 0 n))
              (Wrote-one start _ c text o _ (omega arith) (
                subst
                  (λ m.
                    Wrote start m text (put c o)
                      (vformat_loop fuel reach start q (text ++ 0 ∷ rest) args (put c o)))
                  last
                  (vformat_loop-Wrote fuel reach start q text rest args (put c o) n p (omega arith)
                    room))))
    ]

-- A text without a `%` is printed as it is: as much of it as `size` allows is copied to the buffer,
-- a NUL is written behind it, no other byte is changed, and the result is how many characters were
-- copied. With `size` characters or more, the NUL is written at `buffer + size`.
pub kstring_vformat-Copied :
    (fuel reach : ℕ) (mem number : Memory) (buffer size : ℕ) (text rest : List ℕ) (args : Args)
    → buffer ≢ 0
    → size < u32_mod
    → IsPlain text
    → length text < fuel
    → (after : Out) × (kstring_vformat fuel reach mem number buffer size (text ++ 0 ∷ rest) args
        ≡ returned (min size (length text)) after)
      × Copied mem after.mem buffer (buffer + min size (length text)) text
unfolding kstring_vformat
kstring_vformat-Copied fuel reach mem number buffer size text rest args n small p f =
    let o : Out = record { mem = mem; buffer = number; p = buffer } in
    let w =
      vformat_loop-Wrote fuel reach buffer (buffer + size) text rest args o n p f (omega arith) in
    let last : buffer + min (buffer + size - buffer) (length text)
        ≡ buffer + min size (length text) =
      omega arith in
    (
      w.after,
      w.returns
          ∙ ap (λ k. returned (difference k buffer) w.after) last
          ∙ ap (λ k. returned k w.after)
              (ap (λ k. k % u32_mod) (omega arith) ∙ count (min size (length text)) (omega arith)),
      subst (λ k. Copied mem w.after.mem buffer k text) last w.copied,
    )
  where
    count : (k : ℕ) → k < u32_mod → (k + u32_mod) % u32_mod ≡ k
    count k h = omega arith
