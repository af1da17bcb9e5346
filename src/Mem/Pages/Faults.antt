-- ===== src/Mem/Pages/Faults.antt =====
-- arch/i686/mem/paging.c: what a page fault comes to, and the registers that control paging.
use Prim.Native.Nat.{bit_and, bit_or}
use redshift.Base.{ℕ, ◌-◌, Bool, if◌then◌else◌}
use redshift.Base.Word.{u32_mod}
use redshift.Mem.Frames.{test_bit}

-- The message of a fault, and whether the kernel panics after it.
pub record Fault : Type 0 where
  pub address : ℕ
  pub user : Bool
  pub rw : Bool
  pub present : Bool

pub data Handled : Type 0 where
  reported : Fault → Handled
  panics : Fault → Handled

-- `cr2` is the register that holds the address.
unfoldable page_fault_handler : (cr2 error_code : ℕ) → Handled
page_fault_handler cr2 error_code =
    let fault : Fault = record {
      address = cr2;
      user = test_bit error_code 2;
      rw = test_bit error_code 1;
      present = test_bit error_code 0;
    } in
    if fault.user then reported fault else panics fault

-- The register cr0.
unfoldable page_enable : (cr0 : ℕ) → ℕ
page_enable cr0 = bit_or cr0 0x8000_0000

unfoldable page_disable : (cr0 : ℕ) → ℕ
page_disable cr0 = bit_and cr0 (u32_mod - 1 - 0x8000_0000)
