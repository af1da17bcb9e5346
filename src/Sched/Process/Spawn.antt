-- ===== src/Sched/Process/Spawn.antt =====
-- `process_spawn` of src/sched/process.c: the new process goes to the back of its queue.
use redshift.Base.{
  ltb, Bool-cases, ◌⊎◌, ℕ, ◌+◌, ◌%◌, ◌≤◌, ◌<◌, ◌≡◌, refl, ◌≢◌, inl, inr, true, false, ◌&&◌, Option,
  none, some, ◌∙◌, arith, ◌==◌, if◌then◌else◌, ap, ne→eqb, le→ltb, lt→ltb,
}
use redshift.Base.Bits.{bit_and-zero}
use redshift.Base.Word.{u32_mod, test_flag}
use redshift.Sched.Process.{
  Ptr, null, Process, Sched, Outcome, returned, priority_max, write, Request, new_process, finish,
  enqueue, process_spawn, initial_state, supervisor_flag,
}
use redshift.Sched.Process.Ring.{next-alloc, Ring-has_last}
use redshift.Sched.Process.Queues.{Queues, IsValid, IsQueue-next}
use redshift.Sched.Process.Link.{link, queued, first-IsValid, linked-IsValid}

enqueue-first :
    (k : ℕ) (p : Ptr) (c : Process) (s : Sched)
    → s.last k ≡ null
    → enqueue k p c s
      ≡ returned c.id (record s {
        heap = write s.heap p (some (record c { next = p }));
        last = write s.last k p;
        current = p;
      })
unfolding enqueue
enqueue-first k p c s e = rw (e, enqueue)

enqueue-link :
    (k : ℕ) (p : Ptr) (c b : Process) (s : Sched)
    → s.last k ≢ null
    → s.last k ≢ p
    → s.heap (s.last k) ≡ some b
    → enqueue k p c s
      ≡ returned c.id (record s { heap = link s.heap p (s.last k) c b; last = write s.last k p })
unfolding enqueue
enqueue-link k p c b s ne other e =
    rw (ne→eqb (s.last k) null ne, ne→eqb (s.last k) p other, e, ne→eqb (s.last k) p other, e)

-- What a successful call leaves: the number that the process was given, the interrupt flag as
-- before, and valid queues with the process at the back of its own.
pub record Spawned (p fresh_stack : Ptr) (r : Request) (s : Sched) (q : Queues)
    (o : Outcome (Option ℕ)) : Type 0 where
  pub after : Sched
  pub returns : o ≡ returned (some s.num_processes) after
  pub counted : after.num_processes ≡ (s.num_processes + 1) % u32_mod
  pub flag : after.interrupts ≡ s.interrupts
  pub valid : IsValid after (queued q r.priority p)

-- The request passes the checks of `process_spawn`, and both allocations succeed at unused memory.
pub record IsAccepted (p fresh_stack : Ptr) (r : Request) (s : Sched) : Type 0 where
  pub entry : r.entry_point ≢ 0
  pub size : r.stack_size ≢ 0
  pub priority : r.priority ≤ priority_max
  pub allocated : p ≢ null
  pub unused : s.heap p ≡ none
  pub stacked : ((r.stack_addr == 0) && (fresh_stack == null)) ≡ false

abbrev stack_of : Ptr → Request → Ptr
stack_of fresh r = if r.stack_addr == 0 then fresh else r.stack_addr

process_spawn_accepted :
    (p fresh : Ptr) (r : Request) (s : Sched)
    → IsAccepted p fresh r s
    → process_spawn p fresh r s
      ≡ finish s.interrupts (
          enqueue r.priority p
            (new_process (stack_of fresh r) r s.num_processes)
            (record s { interrupts = false; num_processes = (s.num_processes + 1) % u32_mod }))
unfolding process_spawn
process_spawn_accepted p fresh r s a = rw (
  ne→eqb r.entry_point 0 a.entry,
  ne→eqb r.stack_size 0 a.size,
  le→ltb priority_max r.priority a.priority,
  ne→eqb p null a.allocated,
  a.stacked,
)

-- For every request that it accepts, `process_spawn` returns the number of processes so far as the
-- new number, counts one more modulo 2 ^ 32, gives the interrupt flag back, and leaves valid queues
-- in which the new process stands at the back of the queue of its priority.
pub process_spawn-Spawned :
    (p fresh : Ptr) (r : Request) (s : Sched) (q : Queues)
    → IsValid s q
    → IsAccepted p fresh r s
    → Spawned p fresh r s q (process_spawn p fresh r s)
process_spawn-Spawned p fresh r s q v a = elim (v.queue r.priority) [
  | inl (e, empty) ↦ record {
    after = _;
    returns =
        process_spawn_accepted p fresh r s a
        ∙ ap (finish s.interrupts) (
            enqueue-first r.priority p (new_process (stack_of fresh r) r s.num_processes)
              (record s { interrupts = false; num_processes = (s.num_processes + 1) % u32_mod }) e);
    counted = refl;
    flag = refl;
    valid =
        first-IsValid s q r.priority p (new_process (stack_of fresh r) r s.num_processes) v
          a.allocated a.unused _ _ e empty;
  }
  | inr (z, ring) ↦
      let (y, n) =
        IsQueue-next s.heap (s.last r.priority) (q r.priority) (s.last r.priority)
          (v.queue r.priority) (Ring-has_last s.heap (s.last r.priority) (q r.priority) ring) in
      let (b, held, x) = next-alloc s.heap (s.last r.priority) y n in
      record {
        after = _;
        returns =
            process_spawn_accepted p fresh r s a
            ∙ ap (finish s.interrupts) (
                enqueue-link r.priority p (new_process (stack_of fresh r) r s.num_processes) b
                  (record s { interrupts = false; num_processes = (s.num_processes + 1) % u32_mod })
                  z (λ i. ground (arith, a.unused, ap s.heap i)) held);
        counted = refl;
        flag = refl;
        valid =
            linked-IsValid s q r.priority p (new_process (stack_of fresh r) r s.num_processes) v
              a.allocated a.unused b _ _ z ring held;
      }
]

-- A call that returns was refused for its priority, or it was accepted.
pub process_spawn-cases :
    (p fresh : Ptr) (r : Request) (s s' : Sched) (id : Option ℕ)
    → s.heap p ≡ none
    → process_spawn p fresh r s ≡ returned id s'
    → (s' ≡ record s { interrupts = false }) ⊎ IsAccepted p fresh r s
unfolding process_spawn
process_spawn-cases p fresh r s s' id unused e = elim (Bool-cases (ltb priority_max r.priority)) [
  | inl high ↦ inl (ground arith)
  | inr low ↦ inr (record {
    entry = ground arith;
    size = ground arith;
    priority = ground arith;
    allocated = ground arith;
    unused = unused;
    stacked = ground arith;
  })
]

-- A priority above the highest is refused with -1, and nothing changes but the interrupt flag: it
-- stays off even where it was on, since this way out does not restore it.
process_spawn_invalid :
    (p fresh : Ptr) (r : Request) (s : Sched)
    → r.entry_point ≢ 0
    → r.stack_size ≢ 0
    → priority_max < r.priority
    → process_spawn p fresh r s ≡ returned none (record s { interrupts = false })
unfolding process_spawn
process_spawn_invalid p fresh r s e z h =
    rw (ne→eqb r.entry_point 0 e, ne→eqb r.stack_size 0 z, lt→ltb priority_max r.priority h)

test_flag-supervisor : (flags : ℕ) → test_flag flags supervisor_flag ≡ true
test_flag-supervisor flags = rw (bit_and-zero flags)

-- Every process starts with the segments of ring 0, whatever its flags are, since the flag that is
-- tested for is 0.
initial_state-supervisor :
    (flags entry_point stack stack_size : ℕ)
    → ((initial_state flags entry_point stack stack_size).cs ≡ 0x08)
      × ((initial_state flags entry_point stack stack_size).ss ≡ 0x10)
unfolding initial_state
initial_state-supervisor flags e t z = rw (test_flag-supervisor flags) (refl, refl)
