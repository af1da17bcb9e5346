-- ===== src/Libk/SortedArray/Adding.antt =====
-- `ksorted_array_add` of libk/ksorted_array.c.
use redshift.Base.{ℕ, ◌<◌, ◌≡◌, ◌≢◌, Option, some}
use redshift.Base.Word.{u32_mod}
use redshift.Libk.String.{Memory}
use redshift.Libk.SortedArray.{Array, element, grown, Added}

-- The array and the element pass the assertions, and there is room for one more.
pub record IsAddable (list : Array) (e : ℕ) : Type 0 where
  pub elements : list.elements ≢ 0
  pub element : e ≢ 0
  pub word : e < u32_mod
  pub nonempty : list.count ≢ 0
  pub room : list.count < list.capacity

-- What a call leaves: the array has one element more, `e` behind the others, which are as they were.
pub record Appended (mem : Memory) (list : Array) (e : ℕ) (r : Option Added) : Type 0 where
  pub after : Memory
  pub returns : r ≡ some (list.count, grown list, after)
  pub kept : (j : ℕ) → j < list.count → element after list j ≡ element mem list j
  pub last : element after list list.count ≡ e
