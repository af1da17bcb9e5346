-- ===== src/Boot/Pit.antt =====
-- arch/i686/boot/pit.c: the divisor of the timer.
use redshift.Base.{
  ℕ, ◌/◌, ◌%◌, ◌^◌, Bool, true, List, [], ◌∷◌, ◌==◌, Option, none, some, if◌then◌else◌,
}
use redshift.Kernel.Interrupt.{Handlers, set_interrupt_handler}

abbrev irq0 : ℕ
irq0 = 32

abbrev pit_cmnd : ℕ
pit_cmnd = 0x43

abbrev pit_data : ℕ
pit_data = 0x40

-- The handlers, whether `pit_handler` has been registered, and the ports' values. `none` is the
-- result -1, after which interrupts stay disabled; `some` lists what is written to the ports.
unfoldable pub pit_init :
    (pit_handler freq : ℕ)
    → (registered : Bool) → Handlers
    → Option (List (ℕ × ℕ)) × Bool × Handlers
pit_init pit_handler freq registered handlers =
    let div = 1193180 / freq in
    let handlers' =
      if registered then handlers else set_interrupt_handler irq0 pit_handler handlers in
    if freq == 0 then (none, true, handlers') else (
      some ((pit_cmnd, 0x36) ∷ (pit_data, div % 2 ^ 8) ∷ (pit_data, div / 2 ^ 8 % 2 ^ 8) ∷ []),
      true,
      handlers',
    )
