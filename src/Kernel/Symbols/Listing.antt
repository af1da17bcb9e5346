-- ===== src/Kernel/Symbols/Listing.antt =====
-- `load_symbol_table` of src/kernel/symbols.c on the text of a list of symbols.
use redshift.Base.{
  sym, subst, ◌++◌, length-append, lt→ltb, leb, ℕ, suc, ◌+◌, ◌-◌, ◌*◌, ◌%◌, ◌≤◌, ◌<◌, ◌≡◌, ◌∙◌,
  refl, ap, true, false, ◌&&◌, not, some, List, [], ◌∷◌, map, length, All, arith, ltb, ◌==◌, eqb→eq,
  all_below_sound, if◌then◌else◌,
}
use redshift.Base.Word.{u32_mod}
use redshift.Libk.Char.{kchar_is_digit, kchar_is_alpha, kchar_is_hex_digit, kchar_is_space}
use redshift.Kernel.Symbols.{
  Symbol, max_symbols, precedes, add_symbol, parse_address, load_symbol_table,
}
use redshift.Kernel.Symbols.Parsing.{
  Line, IsDigit, IsNameChar, IsLine, text_of, symbol_of, load_loop-text, Addable,
}

-- The digits of a number as characters, and the number that digits stand for.
abbrev pub digit_char : ℕ → ℕ
digit_char d = if ltb d 10 then 48 + d else 55 + d

abbrev pub hex_value : ℕ → List ℕ → ℕ
hex_value a [] = a
hex_value a (d ∷ s) = hex_value (a * 16 + d) s

hex_digit-char : (d : ℕ) → d < 16 → kchar_is_hex_digit (digit_char d) ≡ true
unfolding kchar_is_hex_digit
hex_digit-char d h = all_below_sound 16 (λ k. kchar_is_hex_digit (digit_char k)) d refl h

space-char : (d : ℕ) → d < 16 → not (kchar_is_space (digit_char d)) ≡ true
unfolding kchar_is_space
space-char d h = all_below_sound 16 (λ k. not (kchar_is_space (digit_char k))) d refl h

digit_char-IsDigit : (d : ℕ) → d < 16 → IsDigit (digit_char d)
digit_char-IsDigit d h =
    (hex_digit-char d h, ground (arith, space-char d h), λ z. ground (arith, z))

-- What the loop of `parse_address` adds for a character.
abbrev char_value : ℕ → ℕ
char_value c =
    if kchar_is_digit c
    then c - 48
    else if kchar_is_alpha c
    then (c + u32_mod - 65 + 10) % u32_mod
    else 0

value-char : (d : ℕ) → d < 16 → char_value (digit_char d) ≡ d
unfolding kchar_is_digit kchar_is_alpha
value-char d h =
    eqb→eq (char_value (digit_char d)) d
      (all_below_sound 16 (λ k. char_value (digit_char k) == k) d refl h)

add_digit : (b d : ℕ) → ((b % u32_mod) * 16 % u32_mod + d) % u32_mod ≡ (b * 16 + d) % u32_mod
add_digit b d = omega arith

parse_address-value :
    (s : List ℕ) (b : ℕ)
    → All (λ d. d < 16) s
    → parse_address (b % u32_mod) (map digit_char s) ≡ hex_value b s % u32_mod
unfolding parse_address kchar_is_digit
parse_address-value [] b h = refl
parse_address-value (d ∷ s) b (h, hs) =
    ap (λ v. parse_address (((b % u32_mod) * 16 % u32_mod + v) % u32_mod) (map digit_char s))
      (value-char d h)
    ∙ ap (λ a. parse_address a (map digit_char s)) (add_digit b d)
    ∙ parse_address-value s (b * 16 + d) hs

-- A symbol as a tool lists it: the digits of its address, of less than 16 each, and its name.
pub record Entry : Type 0 where
  pub digits : List ℕ
  pub head : ℕ
  pub tail : List ℕ

abbrev pub line_of : Entry → Line
line_of e = record { digits = map digit_char e.digits; head = e.head; tail = e.tail }

abbrev pub listed : Entry → Symbol
listed e = record { name = e.head ∷ e.tail; address = hex_value 0 e.digits % u32_mod }

-- The sizes of the two local buffers.
abbrev pub address_max : ℕ
address_max = 8

abbrev pub sym_name_max : ℕ
sym_name_max = 2048

pub record IsEntry (e : Entry) : Type 0 where
  pub short_address : length e.digits ≤ address_max
  pub short_name : suc (length e.tail) ≤ sym_name_max
  pub digits : All (λ d. d < 16) e.digits
  pub start : (not (e.head == 95) && not (kchar_is_alpha e.head)) ≡ false
  pub head : IsNameChar e.head
  pub tail : All IsNameChar e.tail

digits-IsDigit : (s : List ℕ) → All (λ d. d < 16) s → All IsDigit (map digit_char s)
digits-IsDigit [] h = tt
digits-IsDigit (d ∷ s) (h, hs) = (digit_char-IsDigit d h, digits-IsDigit s hs)

lines-IsLine : (es : List Entry) → All IsEntry es → All IsLine (map line_of es)
lines-IsLine [] i = tt
lines-IsLine (e ∷ es) (i, is) = (
  record {
    digits = digits-IsDigit e.digits i.digits;
    start = i.start;
    head = i.head;
    tail = i.tail;
  },
  lines-IsLine es is,
)

symbols-listed : (es : List Entry) → All IsEntry es → map symbol_of (map line_of es) ≡ map listed es
symbols-listed [] i = refl
symbols-listed (e ∷ es) (i, is) =
    rw (parse_address-value e.digits 0 i.digits, symbols-listed es is) refl

-- Each address is above the one before it, the first at least `low`.
abbrev pub IsAscending : (low : ℕ) → List Symbol → Type 0
IsAscending low [] = Unit
IsAscending low (s ∷ symbols) = (low ≤ s.address) × IsAscending (suc s.address) symbols

abbrev IsBelow : ℕ → List Symbol → Type 0
IsBelow low table = All (λ s. s.address < low) table

precedes-IsBelow :
    (table : List Symbol) (s : Symbol) (low : ℕ)
    → IsBelow low table
    → low ≤ s.address
    → precedes table s ≡ true
unfolding precedes
precedes-IsBelow [] s low b h = refl
precedes-IsBelow (t ∷ table) s low (b, bs) h =
    rw (lt→ltb t.address s.address (omega (arith, b, h)), precedes-IsBelow table s low bs h) refl

IsBelow-append :
    (table : List Symbol) (s : Symbol) (low : ℕ)
    → IsBelow low table
    → low ≤ s.address
    → IsBelow (suc s.address) (table ++ s ∷ [])
IsBelow-append [] s low b h = (omega arith, tt)
IsBelow-append (t ∷ table) s low (b, bs) h = (omega (arith, b, h), IsBelow-append table s low bs h)

IsAscending-Addable :
    (table symbols : List Symbol) (low : ℕ)
    → IsBelow low table
    → IsAscending low symbols
    → length table + length symbols ≤ max_symbols
    → Addable table symbols
unfolding add_symbol
IsAscending-Addable table [] low b h room = tt
IsAscending-Addable table (s ∷ symbols) low b (h, hs) room =
    let small : leb (length table + 1) max_symbols ≡ true = ground (arith, room) in
    (
      rw (precedes-IsBelow table s low b h, small) refl,
      IsAscending-Addable (table ++ s ∷ []) symbols (suc s.address) (IsBelow-append table s low b h)
          hs (omega (arith, length-append table (s ∷ []), room)),
    )

-- Loading a text of lines, each the hexadecimal digits of an address in upper case, a space, a name
-- and a newline, gives the names with the values of the digits modulo 2^32, in the order of the lines,
-- where the size covers the text, there are at most 512 lines, and their addresses ascend. An address has at most 8 digits. A name has at most 2048 characters;
-- it starts with a letter or an underscore and goes on with letters, digits and underscores, by the
-- tests of the kernel, none of them a space or 0.
pub load_symbol_table-text :
    (es : List Entry) (name_start size : ℕ)
    → All IsEntry es
    → length (text_of (map line_of es)) ≤ size
    → length (map listed es) ≤ max_symbols
    → IsAscending 0 (map listed es)
    → load_symbol_table name_start size (text_of (map line_of es)) ≡ some (map listed es)
unfolding load_symbol_table
load_symbol_table-text es name_start size i fit room up =
    load_loop-text (map line_of es) size
      (record {
        column = 1;
        in_name = false;
        address = [];
        symbol_address = 0;
        name = [];
        name_start = name_start;
        symbols = [];
      })
      (lines-IsLine es i) fit refl refl
      (subst (Addable []) (sym (symbols-listed es i))
        (IsAscending-Addable [] (map listed es) 0 tt up (omega (arith, room))))
    ∙ ap some (symbols-listed es i)
