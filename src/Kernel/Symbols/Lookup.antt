-- ===== src/Kernel/Symbols/Lookup.antt =====
-- `get_symbol_name` of src/kernel/symbols.c on a table in the order of its predicate.
use redshift.Base.{
  ℕ, ◌≤◌, ◌<◌, ◌≡◌, refl, none, some, List, [], ◌∷◌, inl, inr, arith, leb, le→ltb, Bool-cases,
  if◌then◌else◌, All,
}
use redshift.Kernel.Symbols.{Symbol, name_loop, get_symbol_name}

-- No symbol of the list has a smaller address than `a`.
abbrev pub AllFrom : (a : ℕ) → List Symbol → Type 0
AllFrom a table = All (λ s. a ≤ s.address) table

none_below :
    (a address : ℕ) (table : List Symbol)
    → AllFrom a table
    → address < a
    → name_loop table address ≡ none
unfolding name_loop
none_below a address [] b l = refl
none_below a address (s ∷ table) (b, bs) l = ground (arith, none_below a address table bs l)

name_loop-lowest :
    (address : ℕ) (s : Symbol) (table : List Symbol)
    → AllFrom s.address table
    → name_loop (s ∷ table) address ≡ (if leb s.address address then some s.name else none)
unfolding name_loop
name_loop-lowest address s table b = elim (Bool-cases (leb s.address address)) [
  | inl e ↦ rw e refl
  | inr e ↦ rw e (none_below s.address address table b (ground arith))
]

-- On a table in ascending order of address, which is the order of its predicate, the name that is
-- found for an address in the code is that of the lowest symbol of the table, whatever symbol the
-- address belongs to; below that symbol, none is found.
pub get_symbol_name-lowest :
    (code_start code_end address : ℕ) (s : Symbol) (table : List Symbol)
    → code_start ≤ address
    → address ≤ code_end
    → AllFrom s.address table
    → get_symbol_name code_start code_end (s ∷ table) address
      ≡ (if leb s.address address then some s.name else none)
unfolding get_symbol_name
get_symbol_name-lowest code_start code_end address s table l h b =
    rw (le→ltb address code_start l, le→ltb code_end address h) (name_loop-lowest address s table b)
