-- ===== src/Kernel/Symbols.antt =====
-- src/kernel/symbols.c: reading the symbol table, and looking symbols up.
-- The table is the list of what `ksorted_array_get` gives for each index. Writes behind the two local buffers
-- are not modelled.
pub mod Listing
pub mod Lookup
pub mod Parsing
use redshift.Base.{
  ℕ, zero, suc, ◌+◌, ◌-◌, ◌*◌, ◌%◌, ◌&&◌, ◌||◌, not, Bool, true, false, Option, none, some, List,
  [], ◌∷◌, ◌++◌, ltb, leb, ◌==◌, length, if◌then◌else◌,
}
use redshift.Base.Word.{u32_mod}
use redshift.Libk.Char.{
  kchar_is_digit, kchar_is_alpha, kchar_is_alnum, kchar_is_hex_digit, kchar_is_space,
}
use redshift.Libk.String.{kstring_compare, kstring_length}

-- `struct symbol`
pub record Symbol : Type 0 where
  pub name : List ℕ
  pub address : ℕ

abbrev pub symbol_order_predicate : Symbol → Symbol → Bool
symbol_order_predicate a b = ltb a.address b.address

abbrev pub max_symbols : ℕ
max_symbols = 512

-- Whether the order holds between each element and the new one, so that its place is the last.
unfoldable pub precedes : List Symbol → Symbol → Bool
precedes [] s = true
precedes (t ∷ table) s = let rest = precedes table s in symbol_order_predicate t s && rest

-- `ksorted_array_add` on the table: `none` is the failed `RUNTIME_CHECK` of the capacity, and the copy
-- that makes room for a symbol in front of others, which runs through the whole memory.
unfoldable pub add_symbol : (table : List Symbol) → Symbol → Option (List Symbol)
add_symbol table s =
    if precedes table s && leb (length table + 1) max_symbols then some (table ++ s ∷ []) else none

-- The loop, from an address that was read so far; a character that is neither counts as 0.
unfoldable pub parse_address : (address : ℕ) → List ℕ → ℕ
parse_address address [] = address
parse_address address (c ∷ s) =
    let value =
      if kchar_is_digit c
      then c - 48
      else if kchar_is_alpha c
      then (c + u32_mod - 65 + 10) % u32_mod
      else 0 in
    parse_address ((address * 16 % u32_mod + value) % u32_mod) s

-- The local variables of `load_symbol_table`: whether the state is `SYMBOL`, what `p` has written to
-- each buffer, the byte that `name` starts with, and the symbols so far.
pub record Loading : Type 0 where
  pub column : ℕ
  pub in_name : Bool
  pub address : List ℕ
  pub symbol_address : ℕ
  pub name : List ℕ
  pub name_start : ℕ
  pub symbols : List Symbol

-- What one character leads to: the loop goes on or stops, the syntax is wrong and the kernel panics,
-- or the symbol cannot be added to the table.
pub data Read : Type 0 where
  goes_on : Loading → Read
  stops : Loading → Read
  syntax_error : Read
  not_added : Read

abbrev with_symbols : Loading → Option (List Symbol) → Read
with_symbols l none = not_added
with_symbols l (some table) = goes_on (record l { symbols = table; in_name = false; address = [] })

-- The `switch` for a space.
unfoldable pub end_field : Loading → Read
end_field l =
    if not l.in_name
    then goes_on
        (record l { symbol_address = parse_address 0 l.address; in_name = true; name = [] })
    else if not (l.name_start == 95) && not (kchar_is_alpha l.name_start)
    then syntax_error
    else with_symbols l
        (add_symbol l.symbols (record { name = l.name; address = l.symbol_address }))

-- The `switch` for any other character.
unfoldable pub add_char : ℕ → Loading → Read
add_char c l =
    if not l.in_name
    then (if kchar_is_hex_digit c
        then goes_on (record l { address = l.address ++ c ∷ [] })
        else syntax_error)
    else if not (c == 95) && not (kchar_is_alnum c)
    then syntax_error
    else goes_on (record l {
      name = l.name ++ c ∷ [];
      name_start = if length l.name == 0 then c else l.name_start;
    })

abbrev next_column : Read → Read
next_column (goes_on l) = goes_on (record l { column = l.column + 1 })
next_column (stops l) = stops l
next_column syntax_error = syntax_error
next_column not_added = not_added

-- The body of the loop, with `++column`.
unfoldable pub read_char : ℕ → Loading → Read
read_char c l =
    let field = next_column (end_field (if c == 10 then record l { column = 1 } else l)) in
    if kchar_is_space c
    then (if c == 10 && l.column == 1 then stops l else field)
    else next_column (add_char c l)

-- The loop over the file, of `size` bytes or to its NUL; none for a panic, and for a copy through the memory.
unfoldable pub load_loop : (size : ℕ) → List ℕ → Loading → Option (List Symbol)
load_loop size [] l = some l.symbols
load_loop zero (c ∷ file) l = some l.symbols
load_loop (suc size) (c ∷ file) l = elim (c == 0) [
  | true ↦ some l.symbols
  | false ↦ elim (read_char c l) [
    | goes_on l' ↦ load_loop size file l'
    | stops l' ↦ some l'.symbols
    | syntax_error ↦ none
    | not_added ↦ none
  ]
]

-- `name_start` is the byte that the uninitialised buffer starts with.
unfoldable pub load_symbol_table : (name_start size : ℕ) → List ℕ → Option (List Symbol)
load_symbol_table name_start size file = load_loop size file (record {
  column = 1;
  in_name = false;
  address = [];
  symbol_address = 0;
  name = [];
  name_start = name_start;
  symbols = [];
})

-- The address and the interrupt flag; the way out from inside the loop does not restore the flag.
unfoldable pub get_symbol_address :
    (table : List Symbol) → (name : List ℕ) → (interrupts : Bool) → Option ℕ × Bool
get_symbol_address [] name interrupts = (none, interrupts)
get_symbol_address (s ∷ table) name interrupts =
    let rest = get_symbol_address table name interrupts in
    if kstring_compare s.name name (kstring_length name) == 0 then (some s.address, false) else rest

-- The loop of `get_symbol_name`.
unfoldable pub name_loop : (table : List Symbol) → (address : ℕ) → Option (List ℕ)
name_loop [] address = none
name_loop (s ∷ table) address =
    let rest = name_loop table address in if leb s.address address then some s.name else rest

-- `code_start` and `code_end` are the linker's symbols.
unfoldable pub get_symbol_name :
    (code_start code_end : ℕ) → (table : List Symbol) → (address : ℕ) → Option (List ℕ)
get_symbol_name code_start code_end table address =
    if ltb address code_start || ltb code_end address then none else name_loop table address
