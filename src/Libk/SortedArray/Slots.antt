-- ===== src/Libk/SortedArray/Slots.antt =====
-- libk/ksorted_array.c: writing one element of an array.
use redshift.Base.{ℕ, ◌<◌, ◌≡◌, ◌≢◌, inl, inr, arith, ltb, Bool-cases}
use redshift.Base.Word.{u32_mod}
use redshift.Libk.String.{Memory}
use redshift.Libk.Memory.{store}
use redshift.Libk.Memory.Words.{load-store_word, load-store_other}
use redshift.Libk.SortedArray.{Array, slot, element}

-- Writing an element.
abbrev pub set_element : Memory → Array → (i e : ℕ) → Memory
set_element mem list i e = store mem (slot list i) e 4

pub element-set_self :
    (mem : Memory) (list : Array) (i e : ℕ)
    → e < u32_mod
    → element (set_element mem list i e) list i ≡ e
element-set_self mem list i e h = load-store_word mem (slot list i) e h

pub element-set_ne :
    (mem : Memory) (list : Array) (i j e : ℕ)
    → i ≢ j
    → element (set_element mem list i e) list j ≡ element mem list j
element-set_ne mem list i j e n = elim (Bool-cases (ltb i j)) [
  | inl l ↦ load-store_other mem (slot list i) e 4 (slot list j) 4 (inr (ground arith))
  | inr l ↦ load-store_other mem (slot list i) e 4 (slot list j) 4 (inl (ground (arith, n)))
]
