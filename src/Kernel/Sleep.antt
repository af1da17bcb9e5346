-- ===== src/Kernel/Sleep.antt =====
-- src/kernel/sleep.c: sleeping counts timer ticks, in millionths.
pub mod Waits
use redshift.Base.{ℕ, zero, suc, ◌+◌, ◌-◌, ◌*◌, ◌%◌, ltb, if◌then◌else◌}
use redshift.Base.Word.{u64_mod}

abbrev pub per_tick : ℕ
per_tick = 1000000

-- The `for` loop: how often `wait_for_interrupt` is called. The fuel bounds the rounds.
unfoldable pub wait_loop : (fuel ticks : ℕ) → ℕ
wait_loop zero ticks = 0
wait_loop (suc fuel) ticks =
    let ticks' = if ltb ticks per_tick then per_tick else ticks in
    let rest = wait_loop fuel (ticks' - per_tick) in if ltb 0 ticks then suc rest else 0

-- `tick_rate` is the rate of the timer in Hz, set by the build.
unfoldable pub usleep : (tick_rate usec : ℕ) → ℕ
usleep tick_rate usec = let ticks = usec * tick_rate % u64_mod in wait_loop ticks ticks

unfoldable pub msleep : (tick_rate msec : ℕ) → ℕ
msleep tick_rate msec = usleep tick_rate (msec * 1000 % u64_mod)

unfoldable pub sleep : (tick_rate sec : ℕ) → ℕ
sleep tick_rate sec = msleep tick_rate (sec * 1000 % u64_mod)
