-- ===== src/Libk/Memory.antt =====
-- libk/kmemory.c with kmemory_copy.h and kmemory_fill.h: copying, filling and comparing memory.
-- The memory is a function from addresses to bytes; a word of `k` bytes has its lowest byte first.
-- Addresses and sizes are 32-bit numbers.
pub mod Copying
pub mod Filling
pub mod Words
use redshift.Base.{
  ℕ, zero, suc, ◌+◌, ◌-◌, ◌*◌, ◌/◌, ◌%◌, ◌^◌, Bool, true, false, ◌&&◌, ◌||◌, not, Option, none,
  some, ltb, leb, ◌==◌, if◌then◌else◌,
}
use redshift.Base.Word.{u32_mod}
use redshift.Libk.String.{Memory, write}

unfoldable pub load : Memory → (a k : ℕ) → ℕ
load mem a zero = 0
load mem a (suc k) = mem a + 256 * load mem (suc a) k

unfoldable pub store : Memory → (a v k : ℕ) → Memory
store mem a v zero = mem
store mem a v (suc k) = store (write mem a (v % 256)) (suc a) (v / 256) k

-- `kfill64`, `kfill32` and `kfill16`, for values of 8, 4 and 2 bytes; the pointer behind is
-- `ptr + k * n`.
unfoldable pub kfill : (k : ℕ) → Memory → (ptr value n : ℕ) → Memory
kfill k mem ptr value zero = mem
kfill k mem ptr value (suc n) = kfill k (store mem ptr value k) (ptr + k) value n

-- A memory, a pointer into it, and the count that is left.
pub record Fill : Type 0 where
  pub mem : Memory
  pub ptr : ℕ
  pub n : ℕ

-- The loop up to a boundary of 4 bytes.
unfoldable pub fill_to_boundary : Memory → (ptr value n : ℕ) → Fill
fill_to_boundary mem ptr value zero = record { mem = mem; ptr = ptr; n = 0 }
fill_to_boundary mem ptr value (suc n) =
    let rest = fill_to_boundary (write mem ptr value) (suc ptr) value n in
    if ptr % 4 == 0 then record { mem = mem; ptr = ptr; n = suc n } else rest

-- `if (n >= k) { n /= k; kfill(&ptr, value, n); n %= k; }`
unfoldable pub fill_words : (k value : ℕ) → Fill → Fill
fill_words k value f =
    if leb k f.n
    then record {
      mem = kfill k f.mem f.ptr value (f.n / k);
      ptr = f.ptr + k * (f.n / k);
      n = f.n / k % k;
    }
    else f

abbrev pub value16 : ℕ → ℕ
value16 value = value * 256 + value

abbrev pub value32 : ℕ → ℕ
value32 value = value16 value * 0x1_0000 + value16 value

-- The variable `value64` has 32 bits, which lose the upper half.
abbrev pub value64 : ℕ → ℕ
value64 value = (value32 value * u32_mod + value32 value) % u32_mod

unfoldable pub kfill8 : Memory → (ptr value n : ℕ) → Memory
kfill8 mem ptr value n =
    let f = fill_words 2 (value16 value) (
      fill_words 4 (value32 value)
        (fill_words 8 (value64 value) (fill_to_boundary mem ptr value n))) in
    kfill 1 f.mem f.ptr value f.n

unfoldable pub kmemory_zero : Memory → (ptr n : ℕ) → Memory
kmemory_zero mem ptr n = kfill8 mem ptr 0 n

unfoldable pub kmemory_fill8 : Memory → (ptr value n : ℕ) → Memory
kmemory_fill8 mem ptr value n = kfill8 mem ptr value n

unfoldable pub kmemory_fill32 : Memory → (ptr value n : ℕ) → Memory
kmemory_fill32 mem ptr value n = kfill 4 mem ptr value n

unfoldable pub kmemory_fill64 : Memory → (ptr value n : ℕ) → Memory
kmemory_fill64 mem ptr value n = kfill 8 mem ptr value n

-- The two pointers of a copy and the memory.
pub record Cursors : Type 0 where
  pub mem : Memory
  pub dst : ℕ
  pub src : ℕ

-- `COPY`, `k` bytes wide, with the operator that moves a pointer by so many bytes.
unfoldable pub copy : (move : ℕ → ℕ → ℕ) → (k : ℕ) → Cursors → Cursors
copy move k c = record {
  mem = store c.mem c.dst (load c.mem c.src k) k;
  dst = move k c.dst;
  src = move k c.src;
}

abbrev pub forwards : ℕ → ℕ → ℕ
forwards k a = (a + k) % u32_mod

abbrev pub backwards : ℕ → ℕ → ℕ
backwards k a = (a + u32_mod - k) % u32_mod

abbrev pub decrement : ℕ → ℕ
decrement n = (n + u32_mod - 1) % u32_mod

-- `while (n-- && (dst & ~7) && (src & ~7)) { COPY }`: the pointers and `n` behind it, or none when
-- the fuel is used up.
unfoldable pub align_loop :
    (fuel : ℕ) → (move : ℕ → ℕ → ℕ) → Cursors → (n : ℕ) → Option (Cursors × ℕ)
align_loop zero move c n = none
align_loop (suc fuel) move c n = elim (not (n == 0) && leb 8 c.dst && leb 8 c.src) [
  | false ↦ some (c, decrement n)
  | true ↦ align_loop fuel move (copy move 1 c) (decrement (decrement n))
]

-- `while (n > 4)`, four words of 8 bytes a round.
unfoldable pub four_loop :
    (fuel : ℕ) → (move : ℕ → ℕ → ℕ) → Cursors → (n : ℕ) → Option (Cursors × ℕ)
four_loop zero move c n = none
four_loop (suc fuel) move c n = elim (ltb 4 n) [
  | false ↦ some (c, n)
  | true ↦ four_loop fuel move (copy move 8 (copy move 8 (copy move 8 (copy move 8 c)))) (n - 4)
]

-- `while (n > 0)`, `k` bytes a round.
unfoldable pub rest_loop : (move : ℕ → ℕ → ℕ) → (k : ℕ) → Cursors → (n : ℕ) → Cursors
rest_loop move k c zero = c
rest_loop move k c (suc n) = rest_loop move k (copy move k c) n

-- The body that `internal_copy_forwards` and `internal_copy_backwards` share. Behind the loop over
-- single words `n` is 0, so the last loop makes no round.
unfoldable pub internal_copy : (fuel : ℕ) → (move : ℕ → ℕ → ℕ) → Cursors → (n : ℕ) → Option Cursors
internal_copy fuel move c n = elim (align_loop fuel move c n) [
  | none ↦ none
  | some (c', n') ↦ elim (four_loop fuel move c' n') [
    | none ↦ none
    | some (c'', n'') ↦ some (rest_loop move 1 (rest_loop move 8 c'' n'') 0)
  ]
]

abbrev pub internal_copy_forwards : (fuel : ℕ) → Cursors → (n : ℕ) → Option Cursors
internal_copy_forwards fuel c n = internal_copy fuel forwards c n

abbrev pub internal_copy_backwards : (fuel : ℕ) → Cursors → (n : ℕ) → Option Cursors
internal_copy_backwards fuel c n =
    internal_copy fuel backwards (record c { dst = forwards n c.dst; src = forwards n c.src }) n

abbrev memory_of : Option Cursors → Option Memory
memory_of none = none
memory_of (some c) = some c.mem

-- `none` when the fuel is used up.
unfoldable pub kmemory_copy : (fuel : ℕ) → Memory → (dst src n : ℕ) → Option Memory
kmemory_copy fuel mem dst src n =
    if dst == src
    then some mem
    else if ltb dst src || leb ((src + n) % u32_mod) dst
    then memory_of (internal_copy_forwards fuel (record { mem = mem; dst = dst; src = src }) n)
    else memory_of (
        internal_copy_backwards fuel
          (record { mem = mem; dst = forwards n dst; src = forwards n src }) n)

-- `int` reads, four bytes from each address; the result is a 32-bit number.
unfoldable pub compare_loop : Memory → (a1 a2 n : ℕ) → ℕ
compare_loop mem a1 a2 zero = 0
compare_loop mem a1 a2 (suc n) =
    let rest = compare_loop mem (suc a1) (suc a2) n in
    let cmp = (load mem a1 4 + u32_mod - load mem a2 4) % u32_mod in if cmp == 0 then rest else cmp

unfoldable pub kmemory_compare : Memory → (p1 p2 n : ℕ) → ℕ
kmemory_compare mem p1 p2 n = if p1 == p2 then 0 else compare_loop mem p1 p2 n
