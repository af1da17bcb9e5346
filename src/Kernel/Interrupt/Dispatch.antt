-- ===== src/Kernel/Interrupt/Dispatch.antt =====
-- Which handler src/kernel/interrupt.c calls.
use redshift.Base.{ℕ, ◌≤◌, ◌<◌, ◌≡◌, ◌≢◌, true, false, [], ◌∷◌, leb, arith, lt→ltb, le→ltb, ne→eqb}
use redshift.Kernel.Interrupt.{
  Handlers, calls, set_interrupt_handler, isr_handler, irq_handler, handle_exception,
  pic_master_cmnd, pic_slave_cmnd, pic_reset,
}

set_self : (n fp : ℕ) (handlers : Handlers) → n < 256 → set_interrupt_handler n fp handlers n ≡ fp
unfolding set_interrupt_handler
set_self n fp handlers h = ground arith

set_ne :
    (n m fp : ℕ) (handlers : Handlers)
    → n < 256
    → m ≢ n
    → set_interrupt_handler n fp handlers m ≡ handlers m
unfolding set_interrupt_handler
set_ne n m fp handlers h ne = ground arith

-- A handler that is set for an interrupt below 34 is not called by `isr_handler`, which panics;
-- one that is set for another interrupt below 256 is called. In either case `irq_handler`
-- acknowledges the interrupt, to the slave from 40 on and then to the master in any case, and
-- calls the handler. What `isr_handler` does for another interrupt stays as it was.
pub set_interrupt_handler-isr_handler :
    (n m fp error_code : ℕ) (handlers : Handlers)
    → n < 256
    → fp ≢ 0
    → (n < 34
        → isr_handler n error_code (set_interrupt_handler n fp handlers)
          ≡ handle_exception n error_code)
      × (34 ≤ n → isr_handler n error_code (set_interrupt_handler n fp handlers) ≡ calls fp)
      × (n < 40
          → irq_handler n (set_interrupt_handler n fp handlers)
            ≡ ((pic_master_cmnd, pic_reset) ∷ [], calls fp))
      × (40 ≤ n
          → irq_handler n (set_interrupt_handler n fp handlers)
            ≡ ((pic_slave_cmnd, pic_reset) ∷ (pic_master_cmnd, pic_reset) ∷ [], calls fp))
      × (m ≢ n
          → isr_handler m error_code (set_interrupt_handler n fp handlers)
            ≡ isr_handler m error_code handlers)
unfolding isr_handler irq_handler
set_interrupt_handler-isr_handler n m fp error_code handlers small ne = (
  (λ h. rw (lt→ltb n 34 h)),
  (λ h. rw (le→ltb n 34 h, set_self n fp handlers small, ne→eqb fp 0 ne)),
  (λ h. rw (not_leb h, set_self n fp handlers small, ne→eqb fp 0 ne)),
  (λ h. rw (is_leb h, set_self n fp handlers small, ne→eqb fp 0 ne)),
  λ h. rw (set_ne n m fp handlers small h),
)
  where
    not_leb : n < 40 → leb 40 n ≡ false
    not_leb h = ground arith

    is_leb : 40 ≤ n → leb 40 n ≡ true
    is_leb h = ground arith
