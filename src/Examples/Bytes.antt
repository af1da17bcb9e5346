-- ===== src/Examples/Bytes.antt =====
-- The theorems on libk/kmemory.c and libk/ksorted_array.c at small memories.
use redshift.Base.{◌+◌, ◌-◌, ◌≡◌, refl, true, false, some, arith}
use redshift.Base.Word.{u32_mod}
use redshift.Libk.String.{Memory}
use redshift.Libk.Memory.{forwards, kmemory_copy, kmemory_zero}
use redshift.Libk.Memory.Copying.{copies, mem_of, kmemory_copy-words}
use redshift.Libk.Memory.Filling.{IsCleared, filled, kmemory_zero-IsCleared}
use redshift.Libk.SortedArray.{Array, Predicate, ksorted_array_remove}
use redshift.Libk.SortedArray.Removing.{Removed, ksorted_array_remove-Removed}

abbrev pub no_bytes : Memory
no_bytes a = 0

-- Eight bytes from 200 to 100.
kmemory_copy-words_example :
    kmemory_copy u32_mod no_bytes 100 200 (4 + 4)
    ≡ some (
        mem_of (
          copies forwards 8
            (u32_mod - 1)
            (copies forwards 1 4 (record { mem = no_bytes; dst = 100; src = 200 }))))
kmemory_copy-words_example =
    kmemory_copy-words u32_mod no_bytes 100 200 4 (omega arith) (omega arith) (omega arith)
      (omega arith) (omega arith)

-- Sixteen bytes at 0x1000.
kmemory_zero-IsCleared_example :
    IsCleared 0x1000 (0x1000 + filled 16) no_bytes (kmemory_zero no_bytes 0x1000 16)
kmemory_zero-IsCleared_example = kmemory_zero-IsCleared no_bytes 0x1000 16 refl

abbrev always : Predicate
always mem a b = true

abbrev two_elements : Array
two_elements = record { elements = 0x1000; freeable = false; count = 2; capacity = 8 }

abbrev one_element : Array
one_element = record two_elements { count = 1 }

ksorted_array_remove-Removed_example :
    Removed no_bytes two_elements 0 (ksorted_array_remove no_bytes two_elements 0)
ksorted_array_remove-Removed_example =
    ksorted_array_remove-Removed no_bytes two_elements 0 (λ a. omega arith) (omega arith)
