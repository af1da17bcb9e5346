-- ===== src/Sched/Process.antt =====
-- src/sched/process.c: the process table, spawning and switching.
pub mod Ring
pub mod Queues
pub mod Link
pub mod Spawn
pub mod Switch
pub mod RoundRobin
pub mod Fairness
pub mod History
use redshift.Base.{
  ℕ, zero, suc, ◌+◌, ◌%◌, ◌<◌, Bool, true, false, ◌&&◌, ◌||◌, not, Option, none, some, ltb, ◌==◌,
  if◌then◌else◌,
}
use redshift.Base.Word.{u32_mod, test_flag}
use redshift.Sched.CpuState.{CpuState, zero_state}

abbrev pub Ptr : Type 0
Ptr = ℕ

abbrev pub null : Ptr
null = 0

-- `process_flags_t`
abbrev pub supervisor_flag : ℕ
supervisor_flag = 0

abbrev pub user_flag : ℕ
user_flag = 1

abbrev pub priority_max : ℕ
priority_max = 15

-- `struct process`; a pointer to a page directory is its address.
pub record Process : Type 0 where
  pub id : ℕ
  pub blocked : Bool
  pub page_dir : Ptr
  pub state : CpuState
  pub stack : Ptr
  pub stack_size : ℕ
  pub flags : ℕ
  pub next : Ptr

abbrev pub Heap : Type 0
Heap = Ptr → Option Process

-- The file's static variables, the heap that its pointers lead to, the page directory that
-- `page_directory_load` made current, and the interrupt flag of the processor.
pub record Sched : Type 0 where
  pub heap : Heap
  pub last : ℕ → Ptr
  pub current : Ptr
  pub num_processes : ℕ
  pub directory : Ptr
  pub interrupts : Bool

-- How a call ends: it returns, it jumps to a saved state for good, it panics, it reads through a
-- dangling pointer, a copy runs through the whole memory, or the model's fuel is used up.
pub data Outcome (A : Type 0) : Type 0 where
  returned : A → Sched → Outcome A
  jumped : CpuState → Sched → Outcome A
  panicked : Outcome A
  fault : Outcome A
  overruns : Outcome A
  out_of_fuel : Outcome A

abbrev pub write : {A : Type 0} → (ℕ → A) → ℕ → A → ℕ → A
write f p v a = if a == p then v else f a

-- `SAVE_INTERRUPT_STATE` and `RESTORE_INTERRUPT_STATE`
abbrev pub disable : Sched → Sched
disable s = record s { interrupts = false }

abbrev pub restore : Bool → Sched → Sched
restore saved s = record s { interrupts = s.interrupts || saved }

-- The segment registers, the entry point and the top of the stack.
pub initial_state : (flags entry_point stack stack_size : ℕ) → CpuState
initial_state flags entry_point stack stack_size =
    let kernel = test_flag flags supervisor_flag in
    record zero_state {
      cs = if kernel then 0x08 else 0x1b;
      ds = if kernel then 0x10 else 0x23;
      es = if kernel then 0x10 else 0x23;
      fs = if kernel then 0x10 else 0x23;
      gs = if kernel then 0x10 else 0x23;
      ss = if kernel then 0x10 else 0x23;
      eip = entry_point;
      esp = (stack + stack_size) % u32_mod;
    }

-- The process at `p` behind the one at `last`, and its queue's new `last`.
pub enqueue : (priority : ℕ) (p : Ptr) → Process → Sched → Outcome ℕ
enqueue priority p process s =
    if s.last priority == null
    then returned process.id (record s {
      heap = write s.heap p (some (record process { next = p }));
      last = write s.last priority p;
      current = p;
    })
    else elim (write s.heap p (some process) (s.last priority)) [
      | none ↦ fault
      | some before ↦
          let linked = write s.heap p (some (record process { next = before.next })) in
          elim (linked (s.last priority)) [
            | none ↦ fault
            | some before' ↦ returned process.id (record s {
              heap = write linked (s.last priority) (some (record before' { next = p }));
              last = write s.last priority p;
            })
          ]
    ]

abbrev pub finish : Bool → Outcome ℕ → Outcome (Option ℕ)
finish saved (returned id s) = returned (some id) (restore saved s)
finish saved (jumped st s) = jumped st s
finish saved panicked = panicked
finish saved fault = fault
finish saved overruns = overruns
finish saved out_of_fuel = out_of_fuel

-- The arguments of `process_spawn`.
pub record Request : Type 0 where
  pub entry_point : ℕ
  pub page_dir : Ptr
  pub priority : ℕ
  pub stack_addr : ℕ
  pub stack_size : ℕ
  pub flags : ℕ

abbrev pub new_process : (stack : Ptr) → Request → ℕ → Process
new_process stack r id = record {
  id = id;
  blocked = false;
  page_dir = r.page_dir;
  state = initial_state r.flags r.entry_point stack r.stack_size;
  stack = stack;
  stack_size = r.stack_size;
  flags = r.flags;
  next = null;
}

-- `p` and `fresh_stack` are what the two calls of `kmalloc` return, the second made only if the
-- request brings no stack. `none` is the result -1.
pub process_spawn : (p fresh_stack : Ptr) → Request → Sched → Outcome (Option ℕ)
unfolding enqueue
process_spawn p fresh_stack r s =
    if r.entry_point == 0 || r.stack_size == 0
    then panicked
    else if ltb priority_max r.priority
    then returned none (disable s)
    else if p == null || (r.stack_addr == 0 && fresh_stack == null)
    then panicked
    else let stack = if r.stack_addr == 0 then fresh_stack else r.stack_addr in
      finish s.interrupts (
        enqueue r.priority p (new_process stack r s.num_processes)
          (record s { interrupts = false; num_processes = (s.num_processes + 1) % u32_mod }))

-- The outcome of the walk round one queue.
pub data Walk : Type 0 where
  found : Ptr → Process → Walk
  exhausted : Walk
  dangling : Walk
  tired : Walk

-- `do { process = process->next; … } while (process != queue->last)`
walk : ℕ → (process last : Ptr) → Heap → Walk
walk zero process last h = tired
walk (suc k) process last h = elim (h process) [
  | none ↦ dangling
  | some c ↦ elim (h c.next) [
    | none ↦ dangling
    | some n ↦ elim n.blocked [
      | false ↦ found c.next n
      | true ↦ elim (c.next == last) [ true ↦ exhausted | false ↦ walk k c.next last h ]
    ]
  ]
]

-- `switch_to`, with the two assignments before it.
abbrev pub switch_to : {A : Type 0} → (priority : ℕ) (m : Ptr) → Process → Sched → Outcome A
switch_to priority m n s =
    jumped n.state
      (record s { last = write s.last priority m; current = m; directory = n.page_dir })

-- The queues from priority `k - 1` down to 0, each walked on `fuel`.
pub dispatch : (fuel k : ℕ) → Bool → Sched → Outcome (Unit {0})
dispatch fuel zero saved s = returned tt (restore saved s)
dispatch fuel (suc k) saved s = elim (s.last k == null) [
  | true ↦ dispatch fuel k saved s
  | false ↦ elim (walk fuel (s.last k) (s.last k) s.heap) [
    | found m n ↦ switch_to k m n s
    | exhausted ↦ dispatch fuel k saved s
    | dangling ↦ fault
    | tired ↦ out_of_fuel
  ]
]

-- The copy of the registers of the process that was interrupted, where there is one. `none` is a copy
-- that goes on behind them: `kmemory_copy` decrements the size twice for each byte, so from one place
-- to another it runs through the whole memory, the queues and the processes among it, and nothing is
-- known of the state then.
pub save_state : Option CpuState → Sched → Option Sched
save_state none s = some s
save_state (some regs) s = if s.current == null then some s else none

-- `fuel` bounds the walk round a queue.
pub process_switch : (fuel : ℕ) → Option CpuState → Sched → Outcome (Unit {0})
unfolding save_state dispatch walk
process_switch fuel regs s = elim (save_state regs (disable s)) [
  | none ↦ overruns
  | some s' ↦ dispatch fuel (suc priority_max) s.interrupts s'
]

-- `get_current_process_id`; `none` is the read through a null or dangling pointer.
pub get_current_process_id : Sched → Option ℕ
get_current_process_id s = elim (s.heap s.current) [ none ↦ none | some c ↦ some c.id ]
