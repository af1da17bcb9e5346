-- ===== src/Kernel/Timer.antt =====
-- src/kernel/timer.c: the list of events, and what a tick of the timer does to it.
-- The list from `events` is a list of records. The interrupt flag is a part of the state, since one
-- path does not restore it. Whether `kmalloc` gives memory is an argument, and `none` is a panic.
-- The callbacks run outside the module: a tick gives the list of the calls it makes.
pub mod Ticks
use redshift.Base.{
  ℕ, ◌+◌, ◌%◌, Bool, true, false, List, [], ◌∷◌, Option, none, some, leb, ◌==◌, ◌||◌, if◌then◌else◌,
}
use redshift.Base.Word.{u32_mod}
use redshift.Libk.String.{kstring_length, kstring_hash32}

-- `struct timer_event`; a function pointer is a number, NULL is 0.
pub record TimerEvent : Type 0 where
  pub name : List ℕ
  pub name_hash : ℕ
  pub period : ℕ
  pub elapsed_time : ℕ
  pub callback : ℕ
  pub arg : ℕ

pub record Timer : Type 0 where
  pub events : List TimerEvent
  pub interrupts : Bool

-- `while (events->next) events = events->next`, on the variable `events` itself, and the append.
unfoldable pub append_event : List TimerEvent → TimerEvent → List TimerEvent
append_event [] event = event ∷ []
append_event (e ∷ []) event = e ∷ event ∷ []
append_event (e ∷ next ∷ rest) event = append_event (next ∷ rest) event

unfoldable pub add_timer_event :
    (allocated : Bool) (name : List ℕ) (period callback arg : ℕ) → Timer → Option Timer
add_timer_event allocated name period callback arg s =
    if callback == 0
    then some (record s { interrupts = false })
    else if allocated
    then some (record s {
      events = append_event s.events (record {
        name = name;
        name_hash = kstring_hash32 name (kstring_length name);
        period = period;
        elapsed_time = 0;
        callback = callback;
        arg = arg;
      });
    })
    else none

-- Whether the event is raised. The sum is 32 bits wide.
abbrev pub due : (elapsed : ℕ) → TimerEvent → Bool
due elapsed e = leb e.period ((e.elapsed_time + elapsed) % u32_mod)

abbrev call : TimerEvent → List (ℕ × ℕ) → List (ℕ × ℕ)
call e rest = if e.callback == 0 then rest else ((e.callback, e.arg) ∷ rest)

-- Whether the function at an address comes back when it is called, as `process_switch` does not.
abbrev pub Returns : Type 0
Returns = ℕ → Bool

abbrev pub comes_back : Returns → TimerEvent → Bool
comes_back returns e = e.callback == 0 || returns e.callback

-- The list that is left, and the calls of callbacks with their arguments, in order. A callback that
-- does not come back leaves its own event and those behind it as they are.
unfoldable pub process_timer_queue :
    Returns → (elapsed : ℕ) → List TimerEvent → List TimerEvent × List (ℕ × ℕ)
process_timer_queue returns elapsed [] = ([], [])
process_timer_queue returns elapsed (e ∷ queue) =
    let (rest, calls) = process_timer_queue returns elapsed queue in
    if due elapsed e
    then (if comes_back returns e
        then (record e { elapsed_time = 0 } ∷ rest, call e calls)
        else (e ∷ queue, call e []))
    else (record e { elapsed_time = (e.elapsed_time + elapsed) % u32_mod } ∷ rest, calls)
