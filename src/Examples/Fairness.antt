-- ===== src/Examples/Fairness.antt =====
-- The theorem on repeated switches of src/sched/process.c at a queue of two processes.
use redshift.Base.{
  ℕ, ◌≤◌, refl, inl, inr, true, false, none, some, [], ◌∷◌, length, ◌==◌, Bool-cases, arith,
  if◌then◌else◌,
}
use redshift.Sched.CpuState.{zero_state}
use redshift.Sched.Process.{Ptr, Process, Sched, Heap}
use redshift.Sched.Process.Queues.{Queues, IsQueue, IsValid}
use redshift.Sched.Process.Fairness.{RunsWithin, IsServed, process_switch-fair}

abbrev process : ℕ → Ptr → Process
process id next = record {
  id = id;
  blocked = false;
  page_dir = 0x20_0000;
  state = zero_state;
  stack = 0x4000;
  stack_size = 4096;
  flags = 0;
  next = next;
}

-- The processes at 0x3000 and 0x5000, in the queue of priority 3; the second one ran last.
abbrev two_heap : Heap
two_heap a =
    if a == 0x3000
    then some (process 0 0x5000)
    else if a == 0x5000
    then some (process 1 0x3000)
    else none

abbrev two_processes : Sched
two_processes = record {
  heap = two_heap;
  last = λ k. if k == 3 then 0x5000 else 0;
  current = 0x5000;
  num_processes = 2;
  directory = 0x20_0000;
  interrupts = true;
}

abbrev two_queue : Queues
two_queue k = if k == 3 then 0x3000 ∷ 0x5000 ∷ [] else []

two_queue-IsQueue : (k : ℕ) → IsQueue two_heap (two_processes.last k) (two_queue k)
two_queue-IsQueue k = elim (Bool-cases (k == 3)) [
  | inl e ↦ rw e (
      inr (
        (λ z. omega arith),
        record {
          links = (refl, (refl, refl));
          nonempty = λ e. ground (arith, e);
          distinct = (refl, (refl, tt));
        },
      ))
  | inr e ↦ rw e (inl (refl, refl))
]

two_processes-IsValid : IsValid two_processes two_queue
two_processes-IsValid = record {
  queue = two_queue-IsQueue;
  apart = λ i j a n h. elim (Bool-cases (i == 3)) [
    | inl e ↦ elim (Bool-cases (j == 3)) [ inl f ↦ ground (arith, n) | inr f ↦ rw f refl ]
    | inr e ↦ ground (arith, h)
  ];
  no_null = refl;
  current = inr (3, refl);
}

two_queue-short : (k : ℕ) → length (two_queue k) ≤ 2
two_queue-short k = elim (Bool-cases (k == 3)) [
  | inl e ↦ rw e (omega arith)
  | inr e ↦ rw e (omega arith)
]

two_processes-IsServed : IsServed two_processes two_queue 3 0x5000
two_processes-IsServed = record {
  below = omega arith;
  higher =
      λ j l h. elim (Bool-cases (j == 3)) [ inl e ↦ absurd (ground (arith, l)) | inr e ↦ rw e tt ];
  ready = refl;
}

process_switch-fair_example : RunsWithin 2 2 0x5000 two_processes
process_switch-fair_example =
    process_switch-fair 2 2 two_processes two_queue 3 (0x3000 ∷ []) 0x5000 [] two_processes-IsValid
      two_queue-short refl two_processes-IsServed (omega arith)
