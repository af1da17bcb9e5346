-- ===== src/Base/Bits.antt =====
-- Facts about `bit_and` at a variable, from the digits that it stands for.
use Prim.Native.Nat.{
  ℕ, zero, suc, ◌+◌, ◌*◌, ◌/◌, ◌%◌, ◌^◌, ◌-◌, ◌≤◌, ◌<◌, min, max, bit_and, bit_or, digits,
  bit_and-bitwise, bit_or-bitwise,
}
use mathlib.Core.Bool.{Bool, true, false, not, ◌&&◌, ◌||◌}
use native.Mathlib.Nat.{pow-suc}
use redshift.Base.Tests.{◌==◌}
use mathlib.Core.Path.{◌≡◌, refl, sym, ap, ◌∙◌}
use native.Mathlib.Omega.{arith}

abbrev ands : ℕ → ℕ → ℕ → ℕ
ands n a b = digits (λ c. zero) min n a b

ands-zero : (n a : ℕ) → ands n a 0 ≡ 0
ands-zero zero a = refl
ands-zero (suc n) zero = refl
ands-zero (suc n) (suc a) = omega (arith, ands-zero n (suc a / 2))

-- Nothing is in common with no bits.
pub bit_and-zero : (a : ℕ) → bit_and a 0 ≡ 0
bit_and-zero a = bit_and-bitwise a 0 ∙ ands-zero a a

-- A count of digits that covers the first number is enough.
ands-fuel : (n m a b : ℕ) → a ≤ n → a ≤ m → ands n a b ≡ ands m a b
ands-fuel zero zero a b p q = refl
ands-fuel zero (suc m) zero b p q = refl
ands-fuel zero (suc m) (suc a) b p q = absurd (omega arith)
ands-fuel (suc n) zero zero b p q = refl
ands-fuel (suc n) zero (suc a) b p q = absurd (omega arith)
ands-fuel (suc n) (suc m) zero b p q = refl
ands-fuel (suc n) (suc m) (suc a) b p q =
    omega (arith, ands-fuel n m (suc a / 2) (b / 2) (omega arith) (omega arith))

-- One digit at a time.
pub bit_and-digit : (a b : ℕ) → bit_and a b ≡ bit_and (a / 2) (b / 2) * 2 + min (a % 2) (b % 2)
bit_and-digit zero b = omega (arith, bit_and-bitwise 0 b, bit_and-bitwise 0 (b / 2))
bit_and-digit (suc a) b = omega (
  arith,
  bit_and-bitwise (suc a) b,
  bit_and-bitwise (suc a / 2) (b / 2),
  ands-fuel a (suc a / 2) (suc a / 2) (b / 2) (omega arith) (omega arith),
)

pub bit_and-one : (a : ℕ) → bit_and a 1 ≡ a % 2
bit_and-one a = omega (arith, bit_and-digit a 1, bit_and-zero (a / 2))

abbrev ors : ℕ → ℕ → ℕ → ℕ
ors n a b = digits (λ c. c) max n a b

ors-zero_left : (n b : ℕ) → ors n 0 b ≡ b
ors-zero_left zero b = refl
ors-zero_left (suc n) b = refl

ors-fuel : (n m a b : ℕ) → a ≤ n → a ≤ m → ors n a b ≡ ors m a b
ors-fuel n m zero b p q = ors-zero_left n b ∙ sym (ors-zero_left m b)
ors-fuel zero m (suc a) b p q = absurd (omega arith)
ors-fuel (suc n) zero (suc a) b p q = absurd (omega arith)
ors-fuel (suc n) (suc m) (suc a) b p q =
    omega (arith, ors-fuel n m (suc a / 2) (b / 2) (omega arith) (omega arith))

pub bit_or-digit : (a b : ℕ) → bit_or a b ≡ bit_or (a / 2) (b / 2) * 2 + max (a % 2) (b % 2)
bit_or-digit zero b = omega (arith, bit_or-bitwise 0 b, bit_or-bitwise 0 (b / 2))
bit_or-digit (suc a) b = omega (
  arith,
  bit_or-bitwise (suc a) b,
  bit_or-bitwise (suc a / 2) (b / 2),
  ors-fuel a (suc a / 2) (suc a / 2) (b / 2) (omega arith) (omega arith),
)

-- The digit of a number at a place.
unfoldable pub bit_at : ℕ → ℕ → Bool
bit_at zero a = a % 2 == 1
bit_at (suc i) a = bit_at i (a / 2)

pub bit_at-bit_and : (i a b : ℕ) → bit_at i (bit_and a b) ≡ (bit_at i a && bit_at i b)
unfolding bit_at
bit_at-bit_and zero a b = ground (arith, bit_and-digit a b)
bit_at-bit_and (suc i) a b =
    ap (bit_at i) (
      half (bit_and a b) (bit_and (a / 2) (b / 2)) (min (a % 2) (b % 2)) (bit_and-digit a b)
        (omega arith))
    ∙ bit_at-bit_and i (a / 2) (b / 2)
  where
    half : (x y z : ℕ) → x ≡ y * 2 + z → z < 2 → x / 2 ≡ y
    half x y z e l = omega arith

pub bit_at-bit_or : (i a b : ℕ) → bit_at i (bit_or a b) ≡ (bit_at i a || bit_at i b)
unfolding bit_at
bit_at-bit_or zero a b = ground (arith, bit_or-digit a b)
bit_at-bit_or (suc i) a b =
    ap (bit_at i) (
      half (bit_or a b) (bit_or (a / 2) (b / 2)) (max (a % 2) (b % 2)) (bit_or-digit a b)
        (omega arith))
    ∙ bit_at-bit_or i (a / 2) (b / 2)
  where
    half : (x y z : ℕ) → x ≡ y * 2 + z → z < 2 → x / 2 ≡ y
    half x y z e l = omega arith

bit_at-zero : (i : ℕ) → bit_at i 0 ≡ false
unfolding bit_at
bit_at-zero zero = refl
bit_at-zero (suc i) = bit_at-zero i

-- A power of two has one digit.
pub bit_at-pow : (i j : ℕ) → bit_at i (2 ^ j) ≡ (i == j)
unfolding bit_at
bit_at-pow zero zero = refl
bit_at-pow zero (suc j) = rw (pow-suc 2 j) (ground arith)
bit_at-pow (suc i) zero = bit_at-zero i ∙ ground arith
bit_at-pow (suc i) (suc j) =
    ap (bit_at i) (omega (arith, pow-suc 2 j)) ∙ bit_at-pow i j ∙ ground arith

pow_pos : (n : ℕ) → 0 < 2 ^ n
pow_pos zero = omega arith
pow_pos (suc n) = omega (arith, pow-suc 2 n, pow_pos n)

pow-lt-pow : (j n : ℕ) → j < n → 2 ^ j < 2 ^ n
pow-lt-pow j zero h = absurd (omega arith)
pow-lt-pow zero (suc n) h = omega (arith, pow-suc 2 n, pow_pos n)
pow-lt-pow (suc j) (suc n) h = omega (arith, pow-suc 2 n, pow-suc 2 j, pow-lt-pow j n (omega arith))

pub bit_at-ones : (n i : ℕ) → i < n → bit_at i (2 ^ n - 1) ≡ true
unfolding bit_at
bit_at-ones zero i h = absurd (omega arith)
bit_at-ones (suc n) zero h =
    let e : (2 ^ suc n - 1) % 2 ≡ 1 = omega (arith, pow-suc 2 n, pow_pos n) in ground arith
bit_at-ones (suc n) (suc i) h =
    ap (bit_at i) (omega (arith, pow-suc 2 n, pow_pos n)) ∙ bit_at-ones n i (omega arith)

-- All digits below `n` but the one at `j`.
pub bit_at-mask : (n i j : ℕ) → j < n → i < n → bit_at i (2 ^ n - 1 - 2 ^ j) ≡ not (i == j)
unfolding bit_at
bit_at-mask zero i j p q = absurd (omega arith)
bit_at-mask (suc n) zero zero p q =
    let e : (2 ^ suc n - 1 - 2 ^ 0) % 2 ≡ 0 = omega (arith, pow-suc 2 n, pow_pos n) in ground arith
bit_at-mask (suc n) zero (suc j) p q =
    let e : (2 ^ suc n - 1 - 2 ^ suc j) % 2 ≡ 1 =
      omega (arith, pow-suc 2 n, pow-suc 2 j, pow-lt-pow j n (omega arith)) in
    ground arith
bit_at-mask (suc n) (suc i) zero p q =
    ap (bit_at i) (omega (arith, pow-suc 2 n, pow_pos n))
    ∙ bit_at-ones n i (omega arith)
    ∙ ground arith
bit_at-mask (suc n) (suc i) (suc j) p q =
    ap (bit_at i) (omega (arith, pow-suc 2 n, pow-suc 2 j, pow-lt-pow j n (omega arith)))
    ∙ bit_at-mask n i j (omega arith) (omega arith)
    ∙ ground arith

-- The test of one digit by a mask.
pub bit_and-pow-eq-zero : (a j : ℕ) → (bit_and a (2 ^ j) == 0) ≡ not (bit_at j a)
unfolding bit_at
bit_and-pow-eq-zero a zero = ground (arith, bit_and-one a)
bit_and-pow-eq-zero a (suc j) =
    let e : bit_and a (2 ^ suc j) ≡ bit_and (a / 2) (2 ^ j) * 2 =
      bit_and-digit a (2 ^ suc j) ∙ omega (arith, ap (bit_and (a / 2)) (half j), low j) in
    ground (arith, bit_and-pow-eq-zero (a / 2) j)
  where
    half : (j : ℕ) → 2 ^ suc j / 2 ≡ 2 ^ j
    half j = omega (arith, pow-suc 2 j)

    low : (j : ℕ) → 2 ^ suc j % 2 ≡ 0
    low j = omega (arith, pow-suc 2 j)

-- All digits at once: a number of `n` digits is their sum, so the full mask keeps it.
pub bit_and-ones : (n a : ℕ) → a < 2 ^ n → bit_and a (2 ^ n - 1) ≡ a
bit_and-ones zero a h = omega (arith, bit_and-zero a)
bit_and-ones (suc n) a h =
    bit_and-digit a (2 ^ suc n - 1)
    ∙ omega
        (arith, ap (bit_and (a / 2)) half, low, bit_and-ones n (a / 2) (omega (arith, pow-suc 2 n)))
  where
    half : (2 ^ suc n - 1) / 2 ≡ 2 ^ n - 1
    half = omega (arith, pow-suc 2 n, pow_pos n)

    low : (2 ^ suc n - 1) % 2 ≡ 1
    low = omega (arith, pow-suc 2 n, pow_pos n)
