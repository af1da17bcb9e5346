-- ===== src/Libk/Char/Classes.antt =====
-- The table of libk/kchar.c against the ranges of ASCII, and the laws of the case conversions.
use redshift.Base.{
  ℕ, ◌<◌, ◌≡◌, refl, sym, Bool, true, false, not, ◌&&◌, ◌||◌, leb, ◌==◌, all_below, all_below_sound,
  arith, eqb→eq,
}
use redshift.Libk.Char.{
  kchar_is_alnum, kchar_is_alpha, kchar_is_blank, kchar_is_control, kchar_is_digit,
  kchar_is_graphical, kchar_is_lower_case, kchar_is_printable, kchar_is_punctuation, kchar_is_space,
  kchar_is_upper_case, kchar_is_hex_digit, kchar_to_lower_case, kchar_to_upper_case,
}

abbrev same : Bool → Bool → Bool
same true b = b
same false b = not b

same→eq : (a b : Bool) → same a b ≡ true → a ≡ b
same→eq true b h = sym h
same→eq false true h = h
same→eq false false h = refl

abbrev pub between : ℕ → ℕ → ℕ → Bool
between low high c = leb low c && leb c high

by_table :
    (f g : ℕ → Bool) → all_below 128 (λ c. same (f c) (g c)) ≡ true → (c : ℕ) → c < 128 → f c ≡ g c
by_table f g h c lt = same→eq (f c) (g c) (all_below_sound 128 (λ c. same (f c) (g c)) c h lt)

by_codes : (f g : ℕ → ℕ) → all_below 128 (λ c. f c == g c) ≡ true → (c : ℕ) → c < 128 → f c ≡ g c
by_codes f g h c lt = eqb→eq (f c) (g c) (all_below_sound 128 (λ c. f c == g c) c h lt)

-- For a code below 128, each predicate but `kchar_is_blank` says whether the code lies in its
-- ranges of ASCII: digits 48 to 57, upper case 65 to 90, lower case 97 to 122, hexadecimal digits
-- the digits and the first six letters of both cases, control 0 to 31 and 127, printable 32 to
-- 126, graphical 33 to 126, space 32 and 9 to 14, letters both cases, alphanumeric letters and
-- digits, and punctuation what is graphical and not alphanumeric. `kchar_is_blank` says no.
pub kchar_is-ranges :
    (c : ℕ)
    → c < 128
    → (kchar_is_digit c ≡ between 48 57 c)
      × (kchar_is_upper_case c ≡ between 65 90 c)
      × (kchar_is_lower_case c ≡ between 97 122 c)
      × (kchar_is_hex_digit c ≡ (between 48 57 c || between 65 70 c || between 97 102 c))
      × (kchar_is_control c ≡ (leb c 31 || c == 127))
      × (kchar_is_printable c ≡ between 32 126 c)
      × (kchar_is_graphical c ≡ between 33 126 c)
      × (kchar_is_space c ≡ (c == 32 || between 9 14 c))
      × (kchar_is_alpha c ≡ (kchar_is_upper_case c || kchar_is_lower_case c))
      × (kchar_is_alnum c ≡ (kchar_is_alpha c || kchar_is_digit c))
      × (kchar_is_punctuation c ≡ (kchar_is_graphical c && not (kchar_is_alnum c)))
      × (kchar_is_blank c ≡ false)
unfolding kchar_is_alnum kchar_is_alpha kchar_is_blank kchar_is_control kchar_is_digit
    kchar_is_graphical kchar_is_lower_case kchar_is_printable kchar_is_punctuation kchar_is_space
    kchar_is_upper_case kchar_is_hex_digit
kchar_is-ranges c h = (
  by_table kchar_is_digit (between 48 57) refl c h,
  by_table kchar_is_upper_case (between 65 90) refl c h,
  by_table kchar_is_lower_case (between 97 122) refl c h,
  by_table kchar_is_hex_digit (λ c. between 48 57 c || between 65 70 c || between 97 102 c) refl c
      h,
  by_table kchar_is_control (λ c. leb c 31 || c == 127) refl c h,
  by_table kchar_is_printable (between 32 126) refl c h,
  by_table kchar_is_graphical (between 33 126) refl c h,
  by_table kchar_is_space (λ c. c == 32 || between 9 14 c) refl c h,
  by_table kchar_is_alpha (λ c. kchar_is_upper_case c || kchar_is_lower_case c) refl c h,
  by_table kchar_is_alnum (λ c. kchar_is_alpha c || kchar_is_digit c) refl c h,
  by_table kchar_is_punctuation (λ c. kchar_is_graphical c && not (kchar_is_alnum c)) refl c h,
  by_table kchar_is_blank (λ c. false) refl c h,
)

-- For a code below 128, converting to one case and then to the other is converting to the other at
-- once, a letter becomes one of the case asked for and nothing else does, and what is not a letter
-- converts alike to both cases.
kchar_to_case-laws :
    (c : ℕ)
    → c < 128
    → (kchar_to_lower_case (kchar_to_upper_case c) ≡ kchar_to_lower_case c)
      × (kchar_to_upper_case (kchar_to_lower_case c) ≡ kchar_to_upper_case c)
      × (kchar_is_lower_case (kchar_to_lower_case c) ≡ kchar_is_alpha c)
      × (kchar_is_upper_case (kchar_to_upper_case c) ≡ kchar_is_alpha c)
      × (kchar_is_alpha c ≡ false → kchar_to_lower_case c ≡ kchar_to_upper_case c)
unfolding kchar_is_alpha kchar_is_lower_case kchar_is_upper_case kchar_to_lower_case
    kchar_to_upper_case
kchar_to_case-laws c h = (
  by_codes (λ c. kchar_to_lower_case (kchar_to_upper_case c)) kchar_to_lower_case refl c h,
  by_codes (λ c. kchar_to_upper_case (kchar_to_lower_case c)) kchar_to_upper_case refl c h,
  by_table (λ c. kchar_is_lower_case (kchar_to_lower_case c)) kchar_is_alpha refl c h,
  by_table (λ c. kchar_is_upper_case (kchar_to_upper_case c)) kchar_is_alpha refl c h,
  λ a. ground (arith, a),
)
