-- ===== src/Libk/Memory/Words.antt =====
-- Words in memory: what a load reads after a store.
use redshift.Base.{ℕ, zero, suc, ◌+◌, ◌/◌, ◌%◌, ◌^◌, ◌≤◌, ◌<◌, ◌≡◌, ◌∙◌, refl, ◌⊎◌, inl, arith}
use native.Mathlib.Nat.{pow-suc}
use redshift.Base.Word.{u32_mod}
use redshift.Libk.String.{Memory, write}
use redshift.Libk.Memory.{load, store}

pub store_outside : (mem : Memory) (a v k b : ℕ) → (b < a) ⊎ (a + k ≤ b) → store mem a v k b ≡ mem b
unfolding store
store_outside mem a v zero b h = refl
store_outside mem a v (suc k) b h =
    store_outside (write mem a (v % 256)) (suc a) (v / 256) k b (ground (arith, h))
    ∙ ground (arith, h)

load_same :
    (mem mem' : Memory) (a k : ℕ)
    → ((b : ℕ) → a ≤ b → b < a + k → mem' b ≡ mem b)
    → load mem' a k ≡ load mem a k
unfolding load
load_same mem mem' a zero h = refl
load_same mem mem' a (suc k) h = omega (
  arith,
  h a (omega arith) (omega arith),
  load_same mem mem' (suc a) k (λ b l l'. h b (omega arith) (omega arith)),
)

pub load-store_other :
    (mem : Memory) (a v k b j : ℕ)
    → (b + j ≤ a) ⊎ (a + k ≤ b)
    → load (store mem a v k) b j ≡ load mem b j
load-store_other mem a v k b j h =
    load_same mem (store mem a v k) b j
      (λ x l l'. store_outside mem a v k x (ground (arith, h, l, l')))

load-store : (mem : Memory) (a v k : ℕ) → v < 256 ^ k → load (store mem a v k) a k ≡ v
unfolding load store
load-store mem a v zero h = ground (arith, h)
load-store mem a v (suc k) h =
    let low : store (write mem a (v % 256)) (suc a) (v / 256) k a ≡ v % 256 =
      store_outside (write mem a (v % 256)) (suc a) (v / 256) k a (inl (omega arith))
      ∙ ground arith in
    let high : v / 256 < 256 ^ k = omega (arith, pow-suc 256 k) in
    omega (arith, low, load-store (write mem a (v % 256)) (suc a) (v / 256) k high)

pub load-store_word : (mem : Memory) (a v : ℕ) → v < u32_mod → load (store mem a v 4) a 4 ≡ v
load-store_word mem a v h = load-store mem a v 4 h

-- Every byte of the memory is one.
abbrev pub IsBytes : Memory → Type 0
IsBytes mem = (a : ℕ) → mem a < 256

load-lt : (mem : Memory) (a k : ℕ) → IsBytes mem → load mem a k < 256 ^ k
unfolding load
load-lt mem a zero b = omega arith
load-lt mem a (suc k) b = omega (arith, b a, load-lt mem (suc a) k b, pow-suc 256 k)

pub load-lt_word : (mem : Memory) (a : ℕ) → IsBytes mem → load mem a 4 < u32_mod
load-lt_word mem a b = load-lt mem a 4 b

pub store-IsBytes : (mem : Memory) (a v k : ℕ) → IsBytes mem → IsBytes (store mem a v k)
unfolding store
store-IsBytes mem a v zero b = b
store-IsBytes mem a v (suc k) b =
    store-IsBytes (write mem a (v % 256)) (suc a) (v / 256) k (λ x. ground (arith, b x))
