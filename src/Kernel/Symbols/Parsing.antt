-- ===== src/Kernel/Symbols/Parsing.antt =====
-- `load_symbol_table` of src/kernel/symbols.c reads the lines of a symbol table.
use redshift.Base.{
  ℕ, zero, suc, ◌+◌, ◌-◌, ◌≤◌, ◌≡◌, ◌≢◌, ◌∙◌, refl, sym, subst, true, false, ◌&&◌, not, some, List,
  [], ◌∷◌, ◌++◌, map, append_assoc, append-nil, length, length-append, All, arith, ◌==◌, ne→eqb,
  if◌then◌else◌,
}
use redshift.Libk.Char.{kchar_is_alpha, kchar_is_alnum, kchar_is_hex_digit, kchar_is_space}
use redshift.Kernel.Symbols.{
  Symbol, Loading, goes_on, parse_address, add_symbol, end_field, add_char, read_char, load_loop,
}

-- A line: the digits of an address and a name, with the first character of the name apart.
pub record Line : Type 0 where
  pub digits : List ℕ
  pub head : ℕ
  pub tail : List ℕ

abbrev pub IsDigit : ℕ → Type 0
IsDigit c = (kchar_is_hex_digit c ≡ true) × (kchar_is_space c ≡ false) × (c ≢ 0)

abbrev pub IsNameChar : ℕ → Type 0
IsNameChar c =
    ((not (c == 95) && not (kchar_is_alnum c)) ≡ false) × (kchar_is_space c ≡ false) × (c ≢ 0)

pub record IsLine (x : Line) : Type 0 where
  pub digits : All IsDigit x.digits
  pub start : (not (x.head == 95) && not (kchar_is_alpha x.head)) ≡ false
  pub head : IsNameChar x.head
  pub tail : All IsNameChar x.tail

abbrev pub text_of : List Line → List ℕ
text_of [] = []
text_of (x ∷ xs) = x.digits ++ (32 ∷ x.head ∷ x.tail ++ (10 ∷ text_of xs))

abbrev pub symbol_of : Line → Symbol
symbol_of x = record { name = x.head ∷ x.tail; address = parse_address 0 x.digits }

load_step :
    (size c : ℕ) (file : List ℕ) (l l' : Loading)
    → c ≢ 0
    → read_char c l ≡ goes_on l'
    → load_loop (suc size) (c ∷ file) l ≡ load_loop size file l'
unfolding load_loop
load_step size c file l l' n e = rw (load_loop, ne→eqb c 0 n, e) refl

read_digit :
    (c : ℕ) (l : Loading)
    → IsDigit c
    → l.in_name ≡ false
    → read_char c l ≡ goes_on (record l { address = l.address ++ c ∷ []; column = l.column + 1 })
unfolding read_char add_char
read_digit c l (h, s, z) e = rw (s, e, h) refl

read_space :
    (l : Loading)
    → l.in_name ≡ false
    → read_char 32 l
      ≡ goes_on (record l {
        symbol_address = parse_address 0 l.address;
        in_name = true;
        name = [];
        column = l.column + 1;
      })
unfolding read_char end_field kchar_is_space
read_space l e = rw e refl

read_name :
    (c : ℕ) (l : Loading)
    → IsNameChar c
    → l.in_name ≡ true
    → read_char c l
      ≡ goes_on (record l {
        name = l.name ++ c ∷ [];
        name_start = if length l.name == 0 then c else l.name_start;
        column = l.column + 1;
      })
unfolding read_char add_char
read_name c l (h, s, z) e = rw (s, e, h) refl

read_newline :
    (l : Loading)
    → l.in_name ≡ true
    → 2 ≤ l.column
    → (not (l.name_start == 95) && not (kchar_is_alpha l.name_start)) ≡ false
    → add_symbol l.symbols (record { name = l.name; address = l.symbol_address })
      ≡ some (l.symbols ++ record { name = l.name; address = l.symbol_address } ∷ [])
    → read_char 10 l
      ≡ goes_on (record l {
        symbols = l.symbols ++ record { name = l.name; address = l.symbol_address } ∷ [];
        in_name = false;
        address = [];
        column = 2;
      })
unfolding read_char end_field kchar_is_space
read_newline l e c s a = rw (ne→eqb l.column 1 (λ z. omega arith), e, s, a) refl

-- Many characters of a field.
abbrev with_address : List ℕ → Loading → Loading
with_address s l = record l { address = l.address ++ s; column = l.column + length s }

abbrev with_name : List ℕ → Loading → Loading
with_name s l = record l { name = l.name ++ s; column = l.column + length s }

read_digits :
    (s : List ℕ) (size n : ℕ) (file : List ℕ) (l : Loading)
    → size ≡ length s + n
    → All IsDigit s
    → l.in_name ≡ false
    → load_loop size (s ++ file) l ≡ load_loop n file (with_address s l)
read_digits [] size n file l e i f =
    let column : l.column + 0 ≡ l.column = omega arith in
    let fuel : size ≡ n = omega (arith, e) in rw (fuel, append-nil l.address, column) refl
read_digits (c ∷ s) zero n file l e i f = ground (arith, e)
read_digits (c ∷ s) (suc size) n file l e (d, ds) f =
    let column : l.column + 1 + length s ≡ l.column + suc (length s) = omega arith in
    let rest =
      read_digits s size n file (record l { address = l.address ++ c ∷ []; column = l.column + 1 })
        (omega (arith, e)) ds f in
    load_step size c (s ++ file) l
      (record l { address = l.address ++ c ∷ []; column = l.column + 1 }) d.2 (read_digit c l d f)
    ∙ rest
    ∙ (rw (append_assoc l.address (c ∷ []) s, column) refl)

read_names :
    (s : List ℕ) (size n : ℕ) (file : List ℕ) (l : Loading)
    → size ≡ length s + n
    → All IsNameChar s
    → l.in_name ≡ true
    → 1 ≤ length l.name
    → load_loop size (s ++ file) l ≡ load_loop n file (with_name s l)
read_names [] size n file l e i f p =
    let column : l.column + 0 ≡ l.column = omega arith in
    let fuel : size ≡ n = omega (arith, e) in rw (fuel, append-nil l.name, column) refl
read_names (c ∷ s) zero n file l e i f p = ground (arith, e)
read_names (c ∷ s) (suc size) n file l e (d, ds) f p =
    let column : l.column + 1 + length s ≡ l.column + suc (length s) = omega arith in
    let next : Loading = record l { name = l.name ++ c ∷ []; column = l.column + 1 } in
    let rest =
      read_names s size n file next (omega (arith, e)) ds f
        (omega (arith, length-append l.name (c ∷ []), p)) in
    load_step size c (s ++ file) l next d.2
      (read_name c l d f ∙ (rw (ne→eqb (length l.name) 0 (λ z. omega (arith, p, z))) refl))
    ∙ rest
    ∙ (rw (append_assoc l.name (c ∷ []) s, column) refl)

-- What is left behind a line whose address was read before.
abbrev with_rest : Line → Loading → Loading
with_rest x l = record {
  column = 2;
  in_name = false;
  address = [];
  symbol_address = parse_address 0 l.address;
  name = x.head ∷ x.tail;
  name_start = x.head;
  symbols =
      l.symbols ++ record { name = x.head ∷ x.tail; address = parse_address 0 l.address } ∷ [];
}

-- The space, the first character of the name, the rest of it and the end of the line.
read_rest :
    (x : Line) (n : ℕ) (file : List ℕ) (l : Loading)
    → IsLine x
    → l.in_name ≡ false
    → add_symbol l.symbols (record { name = x.head ∷ x.tail; address = parse_address 0 l.address })
      ≡ some
          (l.symbols ++ record { name = x.head ∷ x.tail; address = parse_address 0 l.address } ∷ [])
    → load_loop (suc (suc (length x.tail + suc n))) (32 ∷ x.head ∷ x.tail ++ (10 ∷ file)) l
      ≡ load_loop n file (with_rest x l)
read_rest x n file l i f a =
    let named : Loading = record l {
      symbol_address = parse_address 0 l.address;
      in_name = true;
      name = [];
      column = l.column + 1;
    } in
    let started : Loading = record named {
      name = x.head ∷ [];
      name_start = x.head;
      column = l.column + 1 + 1;
    } in
    load_step (suc (length x.tail + suc n)) 32 (x.head ∷ x.tail ++ (10 ∷ file)) l named
      (λ z. omega (arith, z)) (read_space l f)
    ∙ load_step (length x.tail + suc n) x.head (x.tail ++ (10 ∷ file)) named started i.head.2
        (read_name x.head named i.head refl)
    ∙ read_names x.tail (length x.tail + suc n) (suc n) (10 ∷ file) started refl i.tail refl
        (omega arith)
    ∙ load_step n 10 file (with_name x.tail started) (with_rest x l) (λ z. omega (arith, z))
        (read_newline (with_name x.tail started) refl (omega arith) i.start a)

length-text :
    (x : Line) (xs : List Line)
    → length (text_of (x ∷ xs)) ≡ length x.digits + length x.tail + length (text_of xs) + 3
length-text x xs = omega (
  arith,
  length-append x.digits (32 ∷ x.head ∷ x.tail ++ (10 ∷ text_of xs)),
  length-append x.tail (10 ∷ text_of xs),
)

-- Each symbol in turn finds its place behind the others.
abbrev pub Addable : (table symbols : List Symbol) → Type 0
Addable table [] = Unit
Addable table (s ∷ symbols) =
    (add_symbol table s ≡ some (table ++ s ∷ [])) × Addable (table ++ s ∷ []) symbols

-- All lines, each from the state that the one before it leaves.
pub load_loop-text :
    (xs : List Line) (size : ℕ) (l : Loading)
    → All IsLine xs
    → length (text_of xs) ≤ size
    → l.in_name ≡ false
    → l.address ≡ []
    → Addable l.symbols (map symbol_of xs)
    → load_loop size (text_of xs) l ≡ some (l.symbols ++ map symbol_of xs)
unfolding load_loop
load_loop-text [] size l i fit f a added = rw (append-nil l.symbols) refl
load_loop-text (x ∷ xs) size l (i, is) fit f a (here, added) =
    let n = size - (length x.digits + length x.tail + 3) in
    let split : size ≡ length x.digits + suc (suc (length x.tail + suc n)) =
      omega (arith, fit, length-text x xs) in
    let digits = with_address x.digits l in
    let address : parse_address 0 (l.address ++ x.digits) ≡ parse_address 0 x.digits = rw a refl in
    let symbol : ℕ → Symbol = λ v. record { name = x.head ∷ x.tail; address = v } in
    let place =
      subst (λ v. add_symbol l.symbols (symbol v) ≡ some (l.symbols ++ symbol v ∷ [])) (sym address)
        here in
    let places =
      subst (λ v. Addable (l.symbols ++ symbol v ∷ []) (map symbol_of xs)) (sym address) added in
    let rest =
      load_loop-text xs n (with_rest x digits) is (omega (arith, fit, length-text x xs)) refl refl
        places in
    read_digits x.digits size (suc (suc (length x.tail + suc n)))
      (32 ∷ x.head ∷ x.tail ++ (10 ∷ text_of xs)) l split i.digits f
    ∙ read_rest x n (text_of xs) digits i f place
    ∙ rest
    ∙ (rw
        (
          append_assoc l.symbols
              (record { name = x.head ∷ x.tail; address = parse_address 0 (l.address ++ x.digits) }
                ∷ [])
              (map symbol_of xs),
          address,
        )
        refl)
