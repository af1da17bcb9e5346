-- ===== src/Sched/Process/History.antt =====
-- Histories of the scheduler of src/sched/process.c: any sequence of spawns and switches.
use redshift.Base.{
  ℕ, ◌+◌, ◌≤◌, ◌<◌, ◌≡◌, refl, ◌⊎◌, inl, inr, false, Option, none, [], ◌∷◌, arith, ◌==◌, ◌∙◌, sym,
  length, length-append, Bool-cases,
}
use native.Mathlib.Nat.{mod-eq_of_lt}
use redshift.Base.Word.{u32_mod}
use redshift.Sched.CpuState.{CpuState}
use redshift.Sched.Process.{
  Ptr, null, Sched, Outcome, returned, jumped, overruns, Request, process_spawn, process_switch,
  restore,
}
use redshift.Sched.Process.Queues.{Queues, IsValid}
use redshift.Sched.Process.Link.{queued}
use redshift.Sched.Process.Spawn.{process_spawn-cases, process_spawn-Spawned}
use redshift.Sched.Process.RoundRobin.{
  process_switch-chooses, process_switch-round_robin, Overruns, length-turned, turned, Idle, Runs,
  SavesNothing, switch-Overruns,
}

-- The static variables before the first call.
abbrev pub initial : Sched
initial = record {
  heap = λ a. none;
  last = λ k. null;
  current = null;
  num_processes = 0;
  directory = null;
  interrupts = false;
}

-- One call that comes back or switches. `kmalloc` gives unused memory, and the number of processes
-- does not wrap round.
pub data Step : Sched → Sched → Type 0 where
  spawn :
      {s s' : Sched} {id : Option ℕ} (p fresh : Ptr) (r : Request)
      → s.heap p ≡ none
      → s.num_processes + 1 < u32_mod
      → process_spawn p fresh r s ≡ returned id s'
      → Step s s'
  switch :
      {s s' : Sched} {st : CpuState} (regs : Option CpuState)
      → process_switch s.num_processes regs s ≡ jumped st s'
      → Step s s'
  idle :
      {s s' : Sched} (regs : Option CpuState)
      → process_switch s.num_processes regs s ≡ returned tt s'
      → Step s s'

pub data Reach : Sched → Type 0 where
  start : Reach initial
  next : {s s' : Sched} → Reach s → Step s s' → Reach s'

-- Valid queues, none longer than the number of processes.
record Table (s : Sched) (q : Queues) : Type 0 where
  valid : IsValid s q
  counted : (k : ℕ) → length (q k) ≤ s.num_processes

length-queued :
    (q : Queues) (k : ℕ) (p : Ptr) (n : ℕ)
    → ((j : ℕ) → length (q j) ≤ n)
    → (j : ℕ) → length (queued q k p j) ≤ n + 1
length-queued q k p n f j = elim (Bool-cases (j == k)) [
  | inl e ↦ rw e (omega (arith, length-append {0} (q k) (p ∷ []), f k))
  | inr e ↦ rw e (omega (arith, f j))
]

returned-state : {A : Type 0} {a b : A} {s s' : Sched} → returned a s ≡ returned b s' → s ≡ s'
returned-state e = cc

jumped-state :
    {A : Type 0} {a b : CpuState} {s s' : Sched}
    → ◌≡◌ {A = Outcome A} (jumped a s) (jumped b s')
    → s ≡ s'
jumped-state e = cc

returned-ne-jumped :
    {A : Type 0} {a : A} {st : CpuState} {s s' : Sched} → returned a s ≡ jumped st s' → ⊥
returned-ne-jumped e = cc

returned-ne-overruns : {A : Type 0} {a : A} {s : Sched} → returned a s ≡ overruns → ⊥
returned-ne-overruns e = cc

jumped-ne-overruns :
    {A : Type 0} {st : CpuState} {s : Sched} → ◌≡◌ {A = Outcome A} (jumped st s) overruns → ⊥
jumped-ne-overruns e = cc

-- A switch that ends in a state had no registers to copy.
jumped-SavesNothing :
    {s' : Sched} {st : CpuState} (fuel : ℕ) (regs : Option CpuState) (s : Sched)
    → process_switch fuel regs s ≡ jumped st s'
    → SavesNothing regs s
jumped-SavesNothing fuel regs s e = elim (switch-Overruns fuel regs s) [
  | inl c ↦ c
  | inr o ↦ absurd (jumped-ne-overruns (sym e ∙ o.ends))
]

returned-SavesNothing :
    {s' : Sched} (fuel : ℕ) (regs : Option CpuState) (s : Sched)
    → process_switch fuel regs s ≡ returned tt s'
    → SavesNothing regs s
returned-SavesNothing fuel regs s e = elim (switch-Overruns fuel regs s) [
  | inl c ↦ c
  | inr o ↦ absurd (returned-ne-overruns (sym e ∙ o.ends))
]

Step-Table : {s s' : Sched} {q : Queues} → Step s s' → Table s q → (q' : Queues) × Table s' q'
Step-Table {s} {s'} {q} (spawn p fresh r unused small e) t =
    elim (process_spawn-cases p fresh r s s' _ unused e) [
      | inl same ↦ (
        q,
        record {
          valid = rw same (record {
            queue = t.valid.queue;
            apart = t.valid.apart;
            no_null = t.valid.no_null;
            current = t.valid.current;
          });
          counted = rw same t.counted;
        },
      )
      | inr a ↦
          let d = process_spawn-Spawned p fresh r s q t.valid a in
          let same : d.after ≡ s' = returned-state (sym d.returns ∙ e) in
          (
            queued q r.priority p,
            record {
              valid = rw same at d.valid;
              counted =
                  rw (← same, d.counted)
                    (rw (mod-eq_of_lt small)
                      (length-queued q r.priority p s.num_processes t.counted));
            },
          )
    ]
Step-Table {s} {s'} {q} (switch regs e) t =
    elim (process_switch-chooses s.num_processes regs s q
      (jumped-SavesNothing s.num_processes regs s e) t.valid t.counted) [
        | inl i ↦ absurd (returned-ne-jumped (sym i.returns ∙ e))
        | inr r ↦
            let same : r.after ≡ s' = jumped-state (sym r.jumps ∙ e) in
            (
              turned s.heap q r.pick,
              record {
                valid = rw same at r.valid;
                counted = λ k.
                    rw (← same, r.same_count)
                      (rw (length-turned s.heap q _ r.pick k) (t.counted k));
              },
            )
      ]
Step-Table {s} {s'} {q} (idle regs e) t =
    elim (process_switch-chooses s.num_processes regs s q
      (returned-SavesNothing s.num_processes regs s e) t.valid t.counted) [
        | inl i ↦
            let same : restore s.interrupts i.saved ≡ s' = returned-state (sym i.returns ∙ e) in
            (
              q,
              record {
                valid = rw same at i.valid;
                counted = λ k. rw (← same, i.same_count) (t.counted k);
              },
            )
        | inr r ↦ absurd (returned-ne-jumped (sym e ∙ r.jumps))
      ]

Reach-Table : {s : Sched} → Reach s → (q : Queues) × Table s q
Reach-Table start = (
  (λ k. []),
  record {
    valid = record {
      queue = λ k. inl (refl, refl);
      apart = λ j k a ne h. refl;
      no_null = refl;
      current = inl refl;
    };
    counted = λ k. omega arith;
  },
)
Reach-Table (next r st) = let (q, t) = Reach-Table r in Step-Table st t

-- After any history of spawns and switches the table has valid queues, on which the next switch, on
-- fuel for as many processes as there are, ends in the copy that runs through the memory, where it is
-- given the registers of a current process, or returns because all are blocked, or jumps to the first
-- ready process of the highest queue that has one: it meets no dangling pointer, and it ends.
pub Reach-process_switch :
    {s : Sched} (regs : Option CpuState)
    → Reach s
    → (q : Queues) × IsValid s q
      × (Overruns regs s (process_switch s.num_processes regs s)
          ⊎ (Idle regs s q (process_switch s.num_processes regs s)
              ⊎ Runs regs s q (process_switch s.num_processes regs s)))
Reach-process_switch {s} regs r =
    let (q, t) = Reach-Table r in
    (q, t.valid, process_switch-round_robin s.num_processes regs s q t.valid t.counted)
