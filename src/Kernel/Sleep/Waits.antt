-- ===== src/Kernel/Sleep/Waits.antt =====
-- How many timer interrupts src/kernel/sleep.c waits for.
use native.Mathlib.Nat.{le-mul_of_pos_right}
use redshift.Base.{ℕ, zero, suc, ◌+◌, ◌-◌, ◌*◌, ◌/◌, ◌%◌, ◌≤◌, ◌<◌, ◌≡◌, ◌∙◌, ap, arith}
use redshift.Base.Word.{u64_mod}
use redshift.Kernel.Sleep.{per_tick, wait_loop, usleep, msleep, sleep}

wait_loop-ceiling :
    (fuel ticks : ℕ) → ticks ≤ fuel → wait_loop fuel ticks ≡ (ticks + 999999) / 1000000
unfolding wait_loop
wait_loop-ceiling zero ticks h = omega arith
wait_loop-ceiling (suc fuel) ticks h =
    ground (arith, wait_loop-ceiling fuel (ticks - per_tick), wait_loop-ceiling fuel 0)

usleep_lem :
    (tick_rate usec : ℕ)
    → usec * tick_rate < u64_mod
    → usleep tick_rate usec ≡ (usec * tick_rate + 999999) / 1000000
unfolding usleep
usleep_lem tick_rate usec h =
    wait_loop-ceiling (usec * tick_rate % u64_mod) (usec * tick_rate % u64_mod) (omega arith)
    ∙ omega arith

-- Where `amount * 1000000 * tick_rate` fits in 64 bits and the tick rate is positive, sleeping
-- `amount` seconds waits for exactly `amount * tick_rate` interrupts, and sleeping `amount`
-- microseconds for `amount * tick_rate` millionths of an interrupt, rounded up.
sleep-ticks :
    (tick_rate amount : ℕ)
    → 0 < tick_rate
    → amount * 1000000 * tick_rate < u64_mod
    → (sleep tick_rate amount ≡ amount * tick_rate)
      × (usleep tick_rate amount ≡ (amount * tick_rate + 999999) / 1000000)
unfolding sleep msleep
sleep-ticks tick_rate amount r h =
    let fits : amount * 1000000 ≤ amount * 1000000 * tick_rate =
      le-mul_of_pos_right (amount * 1000000) r in
    let whole : amount * 1000 % u64_mod * 1000 % u64_mod ≡ amount * 1000000 = omega (arith, fits) in
    let commuted : amount * 1000000 * tick_rate ≡ 1000000 * (amount * tick_rate) = ground arith in
    (
      ap (usleep tick_rate) whole
          ∙ usleep_lem tick_rate (amount * 1000000) h
          ∙ omega (arith, commuted),
      usleep_lem tick_rate amount (omega (arith, commuted)),
    )
