-- ===== src/Kernel/Console/Cursor.antt =====
-- The cursor of src/kernel/console.c stays on the screen.
use redshift.Base.{
  Option, some, false, sym, subst, ℕ, suc, ◌+◌, ◌≤◌, ◌<◌, ◌≡◌, refl, ◌⊎◌, inl, inr, List, [], ◌∷◌,
  leb, ◌==◌, if_cases, leb→le, arith, length,
}
use redshift.Base.Word.{u32_mod}
use redshift.Libk.Char.{kchar_is_printable}
use redshift.Kernel.Console.{
  Console, put, wrap, console_write_char, write_chars, console_write_string, console_update_cursor,
  console_write_line,
}

-- The cursor and the origin lie on the screen.
abbrev pub IsOnScreen : Console → Type 0
IsOnScreen s =
    (s.x < s.columns)
    × (s.y < s.rows)
    × (s.x_origin < s.columns)
    × (s.y_origin < s.rows)
    × (s.rows < u32_mod)

abbrev pub SameShape : (s t : Console) → Type 0
SameShape s t =
    (t.columns ≡ s.columns)
    × (t.rows ≡ s.rows)
    × (t.x_origin ≡ s.x_origin)
    × (t.y_origin ≡ s.y_origin)

-- The cursor is on the same row, or one row further down and on the screen's columns.
abbrev Near : (s t : Console) → Type 0
Near s t = SameShape s t × ((t.y ≤ s.y) ⊎ ((t.y ≤ suc s.y) × (t.x < s.columns)))

put-Near : (c : ℕ) (s : Console) → IsOnScreen s → Near s (put c s)
unfolding put
put-Near c s (x, y, x0, y0, r) =
    if_cases (Near s) (c == 8) _ _ (λ e. ((refl, refl, refl, refl), inl (omega arith)))
      (λ e.
        if_cases (Near s) (c == 10) _ _ (λ e. ((refl, refl, refl, refl), inr (omega arith, x0)))
          (λ e.
            if_cases (Near s) (c == 13) _ _ (λ e. ((refl, refl, refl, refl), inl (omega arith)))
              (λ e.
                if_cases (Near s) (c == 9) _ _ (λ e. ((refl, refl, refl, refl), inl (omega arith)))
                  (λ e.
                    if_cases (Near s) (kchar_is_printable c) _ _
                      (λ e. ((refl, refl, refl, refl), inl (omega arith)))
                      (λ e. ((refl, refl, refl, refl), inl (omega arith)))))))

-- The column is on the screen, and the row at most one further down.
abbrev Below : (s t : Console) → Type 0
Below s t = SameShape s t × (t.x < s.columns) × (t.y ≤ suc s.y)

wrap-Below : (s t : Console) → IsOnScreen s → Near s t → Below s (wrap t)
unfolding wrap
wrap-Below s t (x, y, x0, y0, r) ((c, w, a, b), near) =
    if_cases (Below s) (leb t.columns t.x) _ _
      (λ e. ((c, w, a, b), omega arith, ground (arith, near, leb→le t.columns t.x e)))
      (λ e. ((c, w, a, b), ground arith, ground (arith, near)))

-- The outcome of writing `n` characters: a console of the same size and origin, with the cursor and
-- the origin on the screen and the cursor at most `n` rows further down.
abbrev Written : (n : ℕ) → (s : Console) → Option Console → Type 0
Written n s r = (s' : Console) × (r ≡ some s') × IsOnScreen s' × SameShape s s' × (s'.y ≤ s.y + n)

console_write_char-Written :
    (inb : ℕ → ℕ) (c : ℕ) (s : Console)
    → IsOnScreen s
    → suc s.y < s.rows
    → Written 1 s (console_write_char inb c s)
unfolding console_write_char
console_write_char-Written inb c s on room =
    let (shape, x, y) = wrap-Below s (put c s) on (put-Near c s on) in
    let inside : leb (wrap (put c s)).rows (wrap (put c s)).y ≡ false =
      ground (arith, shape, y, room) in
    (
      wrap (put c s),
      rw inside refl,
      (ground arith, ground arith, ground arith, ground arith, ground arith),
      shape,
      omega (arith, y),
    )

SameShape-trans : (s t u : Console) → SameShape s t → SameShape t u → SameShape s u
SameShape-trans s t u (a, b, c, d) (e, f, g, h) =
    (omega arith, omega arith, omega arith, omega arith)

Written-step :
    (m n : ℕ) (s t : Console) (r : Option Console)
    → SameShape s t
    → t.y ≤ s.y + m
    → Written n t r
    → Written (m + n) s r
Written-step m n s t r shape low (u, e, on, shapes, y) =
    (u, e, on, SameShape-trans s t u shape shapes, omega (arith, low, y))

write_chars_step :
    (inb : ℕ → ℕ) (c : ℕ) (string : List ℕ) (s t : Console)
    → console_write_char inb c s ≡ some t
    → write_chars inb (c ∷ string) s ≡ write_chars inb string t
unfolding write_chars
write_chars_step inb c string s t e = rw (write_chars, e) refl

write_chars-Written :
    (inb : ℕ → ℕ) (string : List ℕ) (s : Console)
    → IsOnScreen s
    → s.y + length string < s.rows
    → Written (length string) s (write_chars inb string s)
unfolding write_chars
write_chars-Written inb [] s on room = (s, refl, on, (refl, refl, refl, refl), omega arith)
write_chars-Written inb (c ∷ string) s on room =
    let (t, e, on', shape, y) = console_write_char-Written inb c s on (omega (arith, room)) in
    let (_, rows, _, _) = shape in
    let rest = write_chars-Written inb string t on' (omega (arith, room, rows, y)) in
    let whole = Written-step 1 (length string) s t (write_chars inb string t) shape y rest in
    let count : 1 + length string ≡ length (c ∷ string) = omega arith in
    subst (λ n. Written n s (write_chars inb (c ∷ string) s)) count
      (subst (Written (1 + length string) s) (sym (write_chars_step inb c string s t e)) whole)

write_line_lem :
    (inb : ℕ → ℕ) (line : List ℕ) (s t u : Console)
    → write_chars inb line s ≡ some t
    → console_write_char inb 10 (console_update_cursor inb t) ≡ some u
    → console_write_line inb line s ≡ some (length line + 1, u)
unfolding console_write_line console_write_string
write_line_lem inb line s t u e e' = rw (console_write_line, console_write_string, e, e') refl

-- With the cursor and the origin on the screen, and more rows below the cursor than the line has
-- characters and its newline, so that nothing scrolls, writing the line returns: it counts its
-- characters and the newline, and leaves the cursor and the origin on a screen of the same size and
-- origin, the cursor at most one row further down for each character.
pub console_write_line-IsOnScreen :
    (inb : ℕ → ℕ) (line : List ℕ) (s : Console)
    → IsOnScreen s
    → s.y + length line + 1 < s.rows
    → (s' : Console) × (console_write_line inb line s ≡ some (length line + 1, s'))
      × IsOnScreen s'
      × SameShape s s'
      × (s'.y ≤ s.y + length line + 1)
unfolding console_update_cursor
console_write_line-IsOnScreen inb line s on room =
    let (t, e, on', shape, y) = write_chars-Written inb line s on (omega (arith, room)) in
    let (_, rows, _, _) = shape in
    let (u, e', on'', shape', y') =
      console_write_char-Written inb 10 (console_update_cursor inb t) on'
        (omega (arith, room, rows, y)) in
    (
      u,
      write_line_lem inb line s t u e e',
      on'',
      SameShape-trans s t u shape shape',
      omega (arith, y, y'),
    )
