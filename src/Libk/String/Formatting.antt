-- ===== src/Libk/String/Formatting.antt =====
-- `kstring_format_uintmax` of libk/kstring.c writes the digits of a number.
use native.Mathlib.Nat.{
  div-div-eq-div-mul, div-lt_iff_lt-mul, pow-zero, pow-suc, pow-succ', div-one, mod-lt,
}
use redshift.Base.{
  ℕ, zero, suc, ◌+◌, ◌-◌, ◌*◌, ◌/◌, ◌%◌, ◌^◌, ◌≤◌, ◌<◌, max, ◌≡◌, ◌≢◌, ◌∙◌, refl, sym, subst, ap,
  ◌⊎◌, inl, inr, true, false, Bool, ne→eqb, eqb→eq, ◌==◌, if◌then◌else◌, arith, Bool-cases, le→ltb,
}
use redshift.Libk.String.{
  Memory, write, digit_char, digits, kstring_reverse, kstring_format_uintmax,
}
use redshift.Libk.String.Reversing.{kstring_reverse-Reversed}

-- The `k` bytes from `p` are the digits of `v` to the base `b`, the lowest first; no other byte is
-- changed, and where the room suffices no digit is left out.
abbrev IsDigits : (mem : Memory) (p n v b alpha : ℕ) → Memory × ℕ → Type 0
IsDigits mem p n v b alpha (mem', k) =
    ((1 ≤ k) × (k ≤ max 1 n))
    × ((i : ℕ) → i < k → mem' (p + i) ≡ digit_char alpha (v / b ^ i % b))
    × ((a : ℕ) → (a < p) ⊎ (p + k ≤ a) → mem' a ≡ mem a)
    × (v < b ^ n → v < b ^ k)

pub div-pow_suc : (v b i : ℕ) → v / b / b ^ i ≡ v / b ^ suc i
div-pow_suc v b i = div-div-eq-div-mul v b (b ^ i) ∙ ap (λ q. v / q) (sym (pow-succ' b i))

digit_here : (alpha v b : ℕ) → digit_char alpha (v % b) ≡ digit_char alpha (v / b ^ 0 % b)
digit_here alpha v b =
    ap (λ q. digit_char alpha (q % b)) (sym (ap (λ q. v / q) (pow-zero b) ∙ div-one v))

last_digit :
    (mem : Memory) (p n v b alpha : ℕ)
    → (v < b ^ n → v < b)
    → IsDigits mem p n v b alpha (write mem p (digit_char alpha (v % b)), 1)
last_digit mem p n v b alpha small = (
  (omega arith, omega arith),
  digit,
  (λ a h. ground (arith, h)),
  λ h.
      subst (λ q. v < q) (sym (pow-suc b 0 ∙ ap (λ q. q * b) (pow-zero b) ∙ omega arith)) (small h),
)
  where
    digit :
        (i : ℕ)
        → i < 1
        → write mem p (digit_char alpha (v % b)) (p + i) ≡ digit_char alpha (v / b ^ i % b)
    digit zero h = ground (arith, digit_here alpha v b)
    digit (suc i) h = absurd (omega arith)

next_digit :
    (mem : Memory) (p n v b alpha : ℕ) (r : Memory × ℕ)
    → 0 < b
    → 0 < n
    → IsDigits (write mem p (digit_char alpha (v % b))) (suc p) n (v / b) b alpha r
    → IsDigits mem p (suc n) v b alpha (r.0, suc r.1)
next_digit mem p n v b alpha (mem', k) b0 n0 ((one, room), ds, kept, small) =
    ((omega arith, omega arith), digit, (λ a h. ground (arith, h, kept a)), fits)
  where
    digit : (i : ℕ) → i < suc k → mem' (p + i) ≡ digit_char alpha (v / b ^ i % b)
    digit zero h = kept (p + 0) (inl (omega arith)) ∙ ground (arith, digit_here alpha v b)
    digit (suc i) h =
        ap mem' (omega arith)
        ∙ ds i (omega arith)
        ∙ ap (λ q. digit_char alpha (q % b)) (div-pow_suc v b i)

    fits : v < b ^ suc n → v < b ^ suc k
    fits h =
        subst (λ q. v < q) (sym (pow-suc b k))
          ((div-lt_iff_lt-mul b0).0
            (small ((div-lt_iff_lt-mul b0).1 (subst (λ q. v < q) (pow-suc b n) h))))

lone_digit :
    (mem : Memory) (p n v b alpha : ℕ)
    → (v / b == 0) ≡ true
    → digits mem p (suc n) v b alpha ≡ (write mem p (digit_char alpha (v % b)), 1)
unfolding digits
lone_digit mem p n v b alpha h = rw h

no_room :
    (mem : Memory) (p v b alpha : ℕ)
    → (v / b == 0) ≡ false
    → digits mem p 1 v b alpha ≡ (write mem p (digit_char alpha (v % b)), 1)
unfolding digits
no_room mem p v b alpha h = rw h

no_room_at_all :
    (mem : Memory) (p v b alpha : ℕ)
    → digits mem p 0 v b alpha ≡ (write mem p (digit_char alpha (v % b)), 1)
unfolding digits
no_room_at_all mem p v b alpha = refl

more_digits :
    (mem : Memory) (p n v b alpha : ℕ)
    → (v / b == 0) ≡ false
    → (n == 0) ≡ false
    → digits mem p (suc n) v b alpha ≡ (
      (digits (write mem p (digit_char alpha (v % b))) (suc p) n (v / b) b alpha).0,
      suc (digits (write mem p (digit_char alpha (v % b))) (suc p) n (v / b) b alpha).1,
    )
unfolding digits
more_digits mem p n v b alpha h k = rw (h, k)

digits-IsDigits :
    (mem : Memory) (p n v b alpha : ℕ)
    → 0 < b
    → IsDigits mem p n v b alpha (digits mem p n v b alpha)
digits-IsDigits mem p zero v b alpha b0 =
    subst (IsDigits mem p 0 v b alpha) (sym (no_room_at_all mem p v b alpha))
      (last_digit mem p 0 v b alpha (λ h. omega (arith, pow-zero b)))
digits-IsDigits mem p (suc zero) v b alpha b0 = elim (Bool-cases (v / b == 0)) [
  | inl e ↦
      subst (IsDigits mem p 1 v b alpha) (sym (lone_digit mem p 0 v b alpha e))
        (last_digit mem p 1 v b alpha one)
  | inr e ↦
      subst (IsDigits mem p 1 v b alpha) (sym (no_room mem p v b alpha e))
        (last_digit mem p 1 v b alpha one)
]
  where
    one : v < b ^ 1 → v < b
    one h = subst (λ q. v < q) (pow-suc b 0 ∙ ap (λ q. q * b) (pow-zero b) ∙ omega arith) h
digits-IsDigits mem p (suc (suc n)) v b alpha b0 = elim (Bool-cases (v / b == 0)) [
  | inl e ↦
      subst (IsDigits mem p (suc (suc n)) v b alpha) (sym (lone_digit mem p (suc n) v b alpha e)) (
        last_digit mem p (suc (suc n)) v b alpha (λ h.
          subst (λ q. v < q) (omega arith)
            ((div-lt_iff_lt-mul {k = b} {x = v} {y = 1} b0).0 (omega (arith, eqb→eq (v / b) 0 e)))))
  | inr e ↦
      subst (IsDigits mem p (suc (suc n)) v b alpha)
        (sym (more_digits mem p (suc n) v b alpha e (ne→eqb (suc n) 0 (λ z. omega arith))))
        (next_digit mem p (suc n) v b alpha
          (digits (write mem p (digit_char alpha (v % b))) (suc p) (suc n) (v / b) b alpha) b0
          (omega arith)
          (digits-IsDigits (write mem p (digit_char alpha (v % b))) (suc p) (suc n) (v / b) b alpha
            b0))
]

abbrev pub first_letter : Bool → ℕ
first_letter upper = if upper then 65 else 97

digit_char-positive : (upper : Bool) (r : ℕ) → r < 36 → digit_char (first_letter upper) r ≢ 0
digit_char-positive true r l = λ e. ground arith
digit_char-positive false r l = λ e. ground arith

format_lem :
    (mem : Memory) (buffer n value base : ℕ) (upper : Bool) (k : ℕ)
    → 2 ≤ base
    → (digits mem buffer n value base (first_letter upper)).1 ≡ k
    → kstring_format_uintmax mem buffer n value base upper
      ≡ (kstring_reverse (digits mem buffer n value base (first_letter upper)).0 buffer k, k)
unfolding kstring_format_uintmax
format_lem mem buffer n value base upper k b e = rw (le→ltb base 2 b) (
    ap (λ q. (kstring_reverse (digits mem buffer n value base (first_letter upper)).0 buffer q, q))
      e)

-- A number below `base ^ n` is written in a buffer of `n + 1` bytes that are all NULs, for a base
-- from 2 to 36, as its digits, the highest first, behind which a NUL stays; the result is how many
-- digits there are.
pub kstring_format_uintmax-digits :
    (mem : Memory) (buffer n value base : ℕ) (upper : Bool)
    → 2 ≤ base
    → base ≤ 36
    → 1 ≤ n
    → value < base ^ n
    → ((i : ℕ) → i ≤ n → mem (buffer + i) ≡ 0)
    → (mem' : Memory) × (k : ℕ) × (kstring_format_uintmax mem buffer n value base upper
        ≡ (mem', suc k))
      × (suc k ≤ n)
      × (value < base ^ suc k)
      × ((i : ℕ)
          → i ≤ k
          → mem' (buffer + i) ≡ digit_char (first_letter upper) (value / base ^ (k - i) % base))
      × (mem' (buffer + suc k) ≡ 0)
kstring_format_uintmax-digits mem buffer n value base upper b b36 n1 small nuls =
    let (mem', k') = digits mem buffer n value base (first_letter upper) in
    let ((one, room), ds, kept, fits) =
      digits-IsDigits mem buffer n value base (first_letter upper) (omega arith) in
    let k : ℕ = k' - 1 in
    let same : k' ≡ suc k = omega arith in
    let below : value / base ^ k % base < 36 =
      omega (arith, mod-lt (value / base ^ k) {m = base} (omega arith)) in
    let ended : mem' (buffer + suc k) ≡ 0 =
      kept (buffer + suc k) (inr (omega arith)) ∙ nuls (suc k) (omega arith) in
    let (turned, rest) = (kstring_reverse-Reversed mem' buffer k).0 ended (λ z.
      digit_char-positive upper (value / base ^ k % base) below (sym (ds k (omega arith)) ∙ z)) in
    (
      kstring_reverse mem' buffer (suc k),
      k,
      format_lem mem buffer n value base upper (suc k) b same,
      omega arith,
      subst (λ q. value < base ^ q) same (fits small),
      (λ i h.
          turned (buffer + i) (buffer + (k - i)) (omega arith) (omega arith) (omega arith)
          ∙ ds (k - i) (omega arith)),
      rest (buffer + suc k) (inr (omega arith)) ∙ ended,
    )
