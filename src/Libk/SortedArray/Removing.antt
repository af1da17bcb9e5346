-- ===== src/Libk/SortedArray/Removing.antt =====
-- `ksorted_array_remove` of libk/ksorted_array.c.
use redshift.Base.{
  ℕ, zero, suc, ◌+◌, ◌-◌, ◌≤◌, ◌<◌, ◌≡◌, ◌∙◌, refl, sym, ap, ◌⊎◌, inl, inr, Option, some, arith,
  ◌==◌, Bool-cases, eqb→eq, lt→ltb,
}
use redshift.Libk.String.{Memory}
use redshift.Libk.Memory.Words.{IsBytes, load-lt_word, store-IsBytes}
use redshift.Libk.SortedArray.{Array, slot, element, move_down, ksorted_array_remove}
use redshift.Libk.SortedArray.Slots.{set_element, element-set_self, element-set_ne}

-- The elements from `i` on, `n` of them, are each replaced by the one behind.
record Moved (mem mem' : Memory) (list : Array) (i n : ℕ) : Type 0 where
  moved : (j : ℕ) → i ≤ j → j < i + n → element mem' list j ≡ element mem list (j + 1)
  same : (j : ℕ) → (j < i) ⊎ (i + n ≤ j) → element mem' list j ≡ element mem list j

move_down-Moved :
    (list : Array) (mem : Memory) (i n : ℕ)
    → IsBytes mem
    → Moved mem (move_down list mem i n) list i n
unfolding move_down
move_down-Moved list mem i zero b = record {
  moved = λ j l h. absurd (omega arith);
  same = λ j h. refl;
}
move_down-Moved list mem i (suc n) b =
    let v = element mem list (i + 1) in
    let m = set_element mem list i v in
    let r = move_down-Moved list m (suc i) n (store-IsBytes mem (slot list i) v 4 b) in
    record {
      moved = λ j l h. elim (Bool-cases (j == i)) [
        | inl s ↦
            r.same j (inl (ground arith))
            ∙ ap (element m list) (eqb→eq j i s)
            ∙ element-set_self mem list i v (load-lt_word mem (slot list (i + 1)) b)
            ∙ ap (λ k. element mem list (k + 1)) (sym (eqb→eq j i s))
        | inr s ↦
            r.moved j (ground arith) (omega arith)
            ∙ element-set_ne mem list i (j + 1) v (λ z. omega arith)
      ];
      same = λ j h.
          r.same j (ground (arith, h)) ∙ element-set_ne mem list i j v (λ z. ground (arith, h));
    }

-- The element at `i` is gone, those behind it stand one place lower, and those before stay.
pub record Removed (mem : Memory) (list : Array) (i : ℕ) (r : Option (Array × Memory))
    : Type 0 where
  pub after : Memory
  pub returns : r ≡ some (record list { count = list.count - 1 }, after)
  pub kept : (j : ℕ) → j < i → element after list j ≡ element mem list j
  pub lowered :
      (j : ℕ) → i ≤ j → j < list.count - 1 → element after list j ≡ element mem list (j + 1)

pub remove_lem :
    (mem : Memory) (list : Array) (i : ℕ)
    → i < list.count
    → ksorted_array_remove mem list i
      ≡ some (record list { count = list.count - 1 }, move_down list mem i (list.count - i))
unfolding ksorted_array_remove
remove_lem mem list i l = rw (lt→ltb i list.count l) refl

-- Removing an element of an array in a memory of bytes takes out this one: the elements before it
-- stay, those behind it move down by one place, and the count is one less.
pub ksorted_array_remove-Removed :
    (mem : Memory) (list : Array) (i : ℕ)
    → IsBytes mem
    → i < list.count
    → Removed mem list i (ksorted_array_remove mem list i)
ksorted_array_remove-Removed mem list i b l =
    let r = move_down-Moved list mem i (list.count - i) b in
    record {
      after = move_down list mem i (list.count - i);
      returns = remove_lem mem list i l;
      kept = λ j h. r.same j (inl h);
      lowered = λ j h h'. r.moved j h (omega arith);
    }
