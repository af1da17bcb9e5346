-- ===== src/Examples/Texts.antt =====
-- The theorems on libk at short strings and lists.
use redshift.Base.{
  ℕ, suc, ◌+◌, ◌-◌, ◌/◌, ◌%◌, ◌^◌, ◌≤◌, ◌<◌, ◌≡◌, ◌≢◌, refl, true, false, some, [], ◌∷◌, ◌==◌,
  if◌then◌else◌, min, arith,
}
use redshift.Libk.Char.{kchar_is_digit}
use redshift.Libk.Char.Classes.{kchar_is-ranges}
use redshift.Libk.String.{
  Memory, digit_char, kstring_copy, kstring_reverse, kstring_format_uintmax, kstring_parse_intmax,
  kstring_length,
}
use redshift.Libk.String.Copying.{Copied, kstring_copy-Copied}
use redshift.Libk.String.Formatting.{kstring_format_uintmax-digits}
use redshift.Libk.String.Parsing.{bytes, kstring_parse_intmax-format}
use redshift.Libk.String.Reversing.{Reversed, kstring_reverse-Reversed}
use redshift.Libk.List.{Klist, Store, klist_append}
use redshift.Libk.List.Chain.{IsList, klist_append-IsList}

-- The letter x.
kchar_is-ranges_example : kchar_is_digit 120 ≡ false
kchar_is-ranges_example = (kchar_is-ranges 120 (omega arith)).0

abbrev empty_memory : Memory
empty_memory a = 0

-- 2018 in hexadecimal.
kstring_format_uintmax-digits_example :
    (mem' : Memory) × (k : ℕ) × (kstring_format_uintmax empty_memory 100 8 2018 16 true
      ≡ (mem', suc k))
    × (suc k ≤ 8)
    × (2018 < 16 ^ suc k)
    × ((i : ℕ) → i ≤ k → mem' (100 + i) ≡ digit_char 65 (2018 / 16 ^ (k - i) % 16))
    × (mem' (100 + suc k) ≡ 0)
kstring_format_uintmax-digits_example =
    kstring_format_uintmax-digits empty_memory 100 8 2018 16 true (omega arith) (omega arith)
      (omega arith) (omega arith) (λ i h. refl)

kstring_parse_intmax-format_example :
    (mem' : Memory) × (k : ℕ) × (kstring_format_uintmax empty_memory 100 8 2018 16 false
      ≡ (mem', suc k))
    × (mem' (100 + suc k) ≡ 0)
    × (kstring_parse_intmax (bytes mem' 100 (suc k)) 16 ≡ 2018)
kstring_parse_intmax-format_example =
    kstring_parse_intmax-format empty_memory 100 8 2018 16 false (omega arith) (omega arith)
      (omega arith) (omega arith) (omega arith) (λ i h. refl)

-- The string "ab" at 100, with a letter behind it.
abbrev letters : Memory
letters a = if a == 100 then 97 else if a == 101 then 98 else if a == 102 then 99 else 0

kstring_reverse-Reversed_example :
    (letters 102 ≡ 0 → letters 101 ≢ 0 → Reversed letters (kstring_reverse letters 100 2) 100 101)
    × (letters 102 ≢ 0 → Reversed letters (kstring_reverse letters 100 2) 100 102)
kstring_reverse-Reversed_example = kstring_reverse-Reversed letters 100 1

kstring_copy-Copied_example :
    ((kstring_copy letters 200 (104 ∷ 105 ∷ []) 1).1
      ≡ 200 + min 1 (kstring_length (104 ∷ 105 ∷ [])))
    × Copied letters
        (kstring_copy letters 200 (104 ∷ 105 ∷ []) 1).0
        200
        (200 + min 1 (kstring_length (104 ∷ 105 ∷ [])))
        (104 ∷ 105 ∷ [])
kstring_copy-Copied_example = kstring_copy-Copied letters 200 (104 ∷ 105 ∷ []) 1

-- Nodes at 16, 32, 48 and 64, that hold 1, 2, 3 and 4, the first `n` of them linked.
abbrev store : (last : ℕ) → Store
store last = record {
  nodes = λ a. record { data_ = a / 16; next = if a == last then 0 else a + 16 };
  freed = [];
}

abbrev list_to : (last size : ℕ) → Klist
list_to last size = record { head = 16; last = last; size = size; flags = 0 }

four-IsList : IsList (store 64) (list_to 64 4) ((16, 1) ∷ (32, 2) ∷ (48, 3) ∷ []) 4
four-IsList =
    ((refl, refl, (refl, refl, (refl, refl, refl))), (λ e. omega arith), refl, refl, refl, refl)

klist_append-IsList_example :
    (s' : Store) × (list' : Klist) × (klist_append 80 5 (store 64) (list_to 64 4)
      ≡ some (s', list'))
    × IsList s' list' ((16, 1) ∷ (32, 2) ∷ (48, 3) ∷ (64, 4) ∷ []) 5
klist_append-IsList_example =
    klist_append-IsList 80 5 (store 64) (list_to 64 4) ((16, 1) ∷ (32, 2) ∷ (48, 3) ∷ []) 4
      four-IsList (λ e. omega arith) (λ e. omega arith) refl (omega arith)
