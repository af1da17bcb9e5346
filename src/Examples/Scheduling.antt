-- ===== src/Examples/Scheduling.antt =====
-- The theorems on src/sched/process.c at a table with one process.
use redshift.Base.{ℕ, ◌≤◌, refl, ◌⊎◌, inl, inr, none, [], length, ◌==◌, Bool-cases, arith}
use redshift.Sched.Process.{Request, process_spawn, process_switch}
use redshift.Sched.Process.Queues.{Queues, IsValid}
use redshift.Sched.Process.Link.{queued}
use redshift.Sched.Process.Spawn.{Spawned, IsAccepted, process_spawn-Spawned}
use redshift.Sched.Process.RoundRobin.{Overruns, Idle, Runs, process_switch-round_robin}
use redshift.Sched.Process.History.{initial, start, next, spawn, Reach-process_switch}

abbrev request : Request
request = record {
  entry_point = 0x10_0000;
  page_dir = 0x20_0000;
  priority = 3;
  stack_addr = 0;
  stack_size = 4096;
  flags = 1;
}

abbrev no_queues : Queues
no_queues k = []

initial-IsValid : IsValid initial no_queues
initial-IsValid = record {
  queue = λ k. inl (refl, refl);
  apart = λ j k a ne h. refl;
  no_null = refl;
  current = inl refl;
}

request-IsAccepted : IsAccepted 0x3000 0x4000 request initial
request-IsAccepted = record {
  entry = λ e. omega arith;
  size = λ e. omega arith;
  priority = omega arith;
  allocated = λ e. omega arith;
  unused = refl;
  stacked = refl;
}

one_process :
    Spawned 0x3000 0x4000 request initial no_queues (process_spawn 0x3000 0x4000 request initial)
one_process =
    process_spawn-Spawned 0x3000 0x4000 request initial no_queues initial-IsValid request-IsAccepted

process_spawn-Spawned_example :
    Spawned 0x3000 0x4000 request initial no_queues (process_spawn 0x3000 0x4000 request initial)
process_spawn-Spawned_example =
    process_spawn-Spawned 0x3000 0x4000 request initial no_queues initial-IsValid request-IsAccepted

one_queue-short : (k : ℕ) → length (queued no_queues 3 0x3000 k) ≤ 1
one_queue-short k = elim (Bool-cases (k == 3)) [
  | inl e ↦ rw e (omega arith)
  | inr e ↦ rw e (omega arith)
]

process_switch-round_robin_example :
    Overruns none one_process.after (process_switch 1 none one_process.after)
    ⊎ (Idle none one_process.after
          (queued no_queues 3 0x3000)
          (process_switch 1 none one_process.after)
        ⊎ Runs none one_process.after
            (queued no_queues 3 0x3000)
            (process_switch 1 none one_process.after))
process_switch-round_robin_example =
    process_switch-round_robin 1 none one_process.after (queued no_queues 3 0x3000)
      one_process.valid one_queue-short

Reach-process_switch_example :
    (q : Queues) × IsValid one_process.after q
    × (Overruns none one_process.after
          (process_switch one_process.after.num_processes none one_process.after)
        ⊎ (Idle none one_process.after q
              (process_switch one_process.after.num_processes none one_process.after)
            ⊎ Runs none one_process.after q
                (process_switch one_process.after.num_processes none one_process.after)))
Reach-process_switch_example =
    Reach-process_switch none
      (next start (spawn 0x3000 0x4000 request refl (omega arith) one_process.returns))
