-- ===== src/Kernel/Interrupt.antt =====
-- src/kernel/interrupt.c: the table of handlers, and what an interrupt comes to.
-- A handler is a number, 0 is NULL. The messages of the exceptions are left out. Handlers run
-- outside the module: the result says which one is called, or that the kernel panics.
pub mod Dispatch
use Prim.Native.Nat.{bit_and}
use redshift.Base.{
  ℕ, ◌+◌, ◌%◌, ◌^◌, Bool, true, false, List, [], ◌∷◌, length, ltb, leb, ◌==◌, if◌then◌else◌,
}

-- `isr_type_t` and `struct isr_info`.
pub data IsrType : Type 0 where
  reserved : IsrType
  interrupt : IsrType
  trap : IsrType
  fault : IsrType
  abort : IsrType

abbrev IsrInfo : Type 0
IsrInfo = IsrType × Bool

abbrev isr : IsrType → Bool → IsrInfo
isr type has_error_code = (type, has_error_code)

abbrev pub isr_info : List IsrInfo
isr_info =
    isr fault false
    ∷ isr fault false
    ∷ isr interrupt false
    ∷ isr trap false
    ∷ isr trap false
    ∷ isr fault false
    ∷ isr fault false
    ∷ isr fault false
    ∷ isr abort true
    ∷ isr fault false
    ∷ isr fault true
    ∷ isr fault true
    ∷ isr fault true
    ∷ isr fault true
    ∷ isr fault true
    ∷ isr reserved false
    ∷ isr fault false
    ∷ isr fault true
    ∷ isr abort false
    ∷ isr fault false
    ∷ isr fault false
    ∷ isr reserved false
    ∷ isr reserved false
    ∷ isr reserved false
    ∷ isr reserved false
    ∷ isr reserved false
    ∷ isr reserved false
    ∷ isr reserved false
    ∷ isr reserved false
    ∷ isr reserved false
    ∷ isr fault true
    ∷ isr reserved false
    ∷ isr fault false
    ∷ isr interrupt false
    ∷ []

abbrev pub Handlers : Type 0
Handlers = ℕ → ℕ

-- `handler` may be NULL where no handler is set: then a message is printed.
pub data Outcome : Type 0 where
  panics : (number error : ℕ) → Outcome
  calls : (handler : ℕ) → Outcome
  unhandled : Outcome

-- The number is 8 bits wide.
unfoldable pub set_interrupt_handler : (n fp : ℕ) → Handlers → Handlers
set_interrupt_handler n fp handlers m = if m == n % 2 ^ 8 then fp else handlers m

abbrev pub call_interrupt_handler : (number : ℕ) → Handlers → Outcome
call_interrupt_handler number handlers =
    if handlers number == 0 then unhandled else calls (handlers number)

abbrev pub handle_exception : (number error_code : ℕ) → Outcome
handle_exception number error_code = panics number (bit_and error_code 0x7)

unfoldable pub isr_handler : (number error_code : ℕ) → Handlers → Outcome
isr_handler number error_code handlers =
    if ltb number (length isr_info)
    then handle_exception number error_code
    else call_interrupt_handler number handlers

abbrev pub pic_master_cmnd : ℕ
pic_master_cmnd = 0x20

abbrev pub pic_slave_cmnd : ℕ
pic_slave_cmnd = 0xa0

abbrev pub pic_reset : ℕ
pic_reset = 0x20

-- The values written to ports, and then the call.
unfoldable pub irq_handler : (number : ℕ) → Handlers → List (ℕ × ℕ) × Outcome
irq_handler number handlers =
    let master = (pic_master_cmnd, pic_reset) ∷ [] in
    (
      if leb 40 number then (pic_slave_cmnd, pic_reset) ∷ master else master,
      call_interrupt_handler number handlers,
    )
