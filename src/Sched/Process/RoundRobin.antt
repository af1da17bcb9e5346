-- ===== src/Sched/Process/RoundRobin.antt =====
-- `process_switch` of src/sched/process.c as a whole: which process runs next, and the queues then.
use mathlib.Core.Option.{none-ne-some}
use redshift.Base.{
  Bool, ◌||◌, length-append, ℕ, suc, ◌≤◌, ◌≡◌, refl, ◌≢◌, ◌⊎◌, inl, inr, true, Option, none, some,
  List, [], ◌∷◌, ◌++◌, ◌∙◌, sym, arith, ◌==◌, has, has-append, length, Bool-cases, ap, eqb→eq,
  eqb_refl,
}
use redshift.Sched.CpuState.{CpuState}
use redshift.Sched.Process.{
  Ptr, null, Process, Heap, Sched, Outcome, returned, jumped, overruns, priority_max, write,
  disable, restore, dispatch, save_state, process_switch,
}
use redshift.Sched.Process.Ring.{next_of, blocked_of, Ring-rotate}
use redshift.Sched.Process.Queues.{Queues, IsQueue, IsValid, AllBlocked, IsQueue-frame}
use redshift.Sched.Process.Switch.{Turn, Turn-lt, ready-alloc, Pick, NoneReady, dispatch-cases}

-- The queues after the turn: the one that ran goes to the back, in front of it those that were
-- skipped, which stay in order.
abbrev pub turned : (h : Heap) (q : Queues) {k : ℕ} → Pick h q k → Queues
turned h q p = write q p.priority (p.turn.back ++ (p.turn.front ++ (p.turn.member ∷ [])))

-- What the processes and the queues keep where no registers are copied.
record Saved (s sv : Sched) : Type 0 where
  same_next : (a : Ptr) → next_of sv.heap a ≡ next_of s.heap a
  same_blocked : (a : Ptr) → blocked_of sv.heap a ≡ blocked_of s.heap a
  same_last : sv.last ≡ s.last
  same_current : sv.current ≡ s.current
  same_count : sv.num_processes ≡ s.num_processes

-- There are no registers to copy: the caller gives none, or no process is current.
abbrev pub SavesNothing : Option CpuState → Sched → Type 0
SavesNothing regs s = (regs ≡ none) ⊎ (s.current ≡ null)

save_nothing :
    (regs : Option CpuState) (s : Sched)
    → SavesNothing regs s
    → save_state regs (disable s) ≡ some (disable s)
unfolding save_state
save_nothing none s h = refl
save_nothing (some regs) s (inl e) = absurd (none-ne-some regs (sym e))
save_nothing (some regs) s (inr e) = rw e refl

-- There are registers of a current process to copy, and the call does not come to choose another.
pub record Overruns (regs : Option CpuState) (s : Sched) (o : Outcome (Unit {0})) : Type 0 where
  pub registers : CpuState
  pub given : regs ≡ some registers
  pub running : s.current ≢ null
  pub ends : o ≡ overruns

pub switch-Overruns :
    (fuel : ℕ) (regs : Option CpuState) (s : Sched)
    → SavesNothing regs s ⊎ Overruns regs s (process_switch fuel regs s)
unfolding process_switch save_state
switch-Overruns fuel none s = inl (inl refl)
switch-Overruns fuel (some regs) s = elim (Bool-cases (s.current == null)) [
  | inl e ↦ inl (inr (eqb→eq s.current null e))
  | inr e ↦ inr (record {
    registers = regs;
    given = refl;
    running = λ z. ground (arith, e, z);
    ends = rw (process_switch, save_state, e) refl;
  })
]

same-Saved : (s : Sched) → Saved s (disable s)
same-Saved s = record {
  same_next = λ a. refl;
  same_blocked = λ a. refl;
  same_last = refl;
  same_current = refl;
  same_count = refl;
}

pub AllBlocked-same :
    (h g : Heap) (ms : List Ptr)
    → ((a : Ptr) → blocked_of g a ≡ blocked_of h a)
    → AllBlocked g ms
    → AllBlocked h ms
AllBlocked-same h g [] same b = tt
AllBlocked-same h g (m ∷ ms) same b = (sym (same m) ∙ b.0, AllBlocked-same h g ms same b.1)

Pick-same :
    (h g : Heap) (q : Queues) (k : ℕ)
    → ((a : Ptr) → blocked_of g a ≡ blocked_of h a)
    → Pick g q k
    → Pick h q k
Pick-same h g q k same p = record {
  priority = p.priority;
  below = p.below;
  turn = record {
    front = p.turn.front;
    member = p.turn.member;
    back = p.turn.back;
    split = p.turn.split;
    skipped = AllBlocked-same h g p.turn.front same p.turn.skipped;
    ready = sym (same p.turn.member) ∙ p.turn.ready;
  };
  higher = λ j a b. AllBlocked-same h g (q j) same (p.higher j a b);
}

-- Turning a queue keeps its members.
has-turned :
    (h : Heap) (q : Queues) (k : ℕ) (p : Pick h q k) (j : ℕ) (a : Ptr)
    → has a (turned h q p j) ≡ has a (q j)
has-turned h q k p j a = elim (Bool-cases (j == p.priority)) [
  | inr e ↦ rw e
  | inl e ↦
      rw (eqb→eq j p.priority e, eqb_refl p.priority, p.turn.split)
        (ground (
          arith,
          has-append a p.turn.back (p.turn.front ++ (p.turn.member ∷ [])),
          has-append a p.turn.front (p.turn.member ∷ []),
          has-append a p.turn.front (p.turn.member ∷ p.turn.back),
        ))
]

IsQueue-rotate :
    (h : Heap) (z : Ptr) (ms : List Ptr) (t : Turn h ms)
    → IsQueue h z ms
    → t.member ≢ null
    → IsQueue h t.member (t.back ++ (t.front ++ (t.member ∷ [])))
IsQueue-rotate h z ms t (inl (e, empty)) ne =
    absurd (omega (arith, Turn-lt h ms t, ap length empty))
IsQueue-rotate h z ms t (inr (e, r)) ne =
    inr (ne, Ring-rotate h t.front t.member t.back z (rw t.split at r))

pub turned_self :
    (h : Heap) (q : Queues) (k : ℕ) (p : Pick h q k) (j : ℕ)
    → (j == p.priority) ≡ true
    → turned h q p j ≡ p.turn.back ++ (p.turn.front ++ (p.turn.member ∷ []))
turned_self h q k p j e = rw e

has_middle : (us : List Ptr) (m : Ptr) (vs : List Ptr) → has m (us ++ (m ∷ vs)) ≡ true
has_middle us m vs = ground (arith, has-append m us (m ∷ vs))

-- A chosen process is allocated, so its address is not null.
member-ne-null :
    (s sv : Sched) (q : Queues) (k : ℕ) (p : Pick s.heap q k) → IsValid s q → p.turn.member ≢ null
member-ne-null s sv q k p v e =
    ground (arith, ready-alloc s.heap p.turn.member p.turn.ready, v.no_null)

module _ (s sv : Sched) (q : Queues) (k : ℕ) (p : Pick s.heap q k) (v : IsValid s q)
    (sd : Saved s sv) where
  turned-IsQueue :
      (j : ℕ) → IsQueue sv.heap (write sv.last p.priority p.turn.member j) (turned s.heap q p j)
  turned-IsQueue j = elim (Bool-cases (j == p.priority)) [
    | inl e ↦ rw e (
        IsQueue-frame s.heap sv.heap p.turn.member _
          (IsQueue-rotate s.heap (s.last p.priority) (q p.priority) p.turn (v.queue p.priority)
            (member-ne-null s sv q k p v))
          (λ a i. sd.same_next a))
    | inr e ↦
        rw (e, sd.same_last)
          (IsQueue-frame s.heap sv.heap (s.last j) (q j) (v.queue j) (λ a i. sd.same_next a))
  ]

  -- The queues that `process_switch` leaves are valid, with the chosen one turned.
  turned-IsValid :
      (d : Ptr)
      → IsValid
          (record sv {
            last = write sv.last p.priority p.turn.member;
            current = p.turn.member;
            directory = d;
          })
          (turned s.heap q p)
  turned-IsValid d = record {
    queue = turned-IsQueue;
    apart = λ i j a ne h.
        has-turned s.heap q k p j a ∙ v.apart i j a ne (sym (has-turned s.heap q k p i a) ∙ h);
    no_null = sd.same_next null ∙ v.no_null;
    current = inr (
      p.priority,
      has-turned s.heap q k p p.priority p.turn.member
          ∙ ap (has p.turn.member) p.turn.split
          ∙ has_middle p.turn.front p.turn.member p.turn.back,
    );
  }

Saved-IsValid :
    (s sv : Sched) (q : Queues)
    → IsValid s q
    → Saved s sv
    → (w : Bool) → IsValid (record sv { interrupts = w }) q
Saved-IsValid s sv q v sd w = record {
  queue = λ j.
      rw sd.same_last
        (IsQueue-frame s.heap sv.heap (s.last j) (q j) (v.queue j) (λ a i. sd.same_next a));
  apart = v.apart;
  no_null = sd.same_next null ∙ v.no_null;
  current = rw sd.same_current v.current;
}

pub length-turned :
    (h : Heap) (q : Queues) (k : ℕ) (p : Pick h q k) (j : ℕ)
    → length (turned h q p j) ≡ length (q j)
length-turned h q k p j = elim (Bool-cases (j == p.priority)) [
  | inr e ↦ rw e
  | inl e ↦
      rw (eqb→eq j p.priority e, eqb_refl p.priority, p.turn.split)
        (omega (
          arith,
          length-append {0} p.turn.back (p.turn.front ++ (p.turn.member ∷ [])),
          length-append {0} p.turn.front (p.turn.member ∷ []),
          length-append {0} p.turn.front (p.turn.member ∷ p.turn.back),
        ))
]

-- Nothing can run: the call returns, the interrupt flag as before.
pub record Idle (regs : Option CpuState) (s : Sched) (q : Queues) (o : Outcome (Unit {0}))
    : Type 0 where
  pub saved : Sched
  pub saving : save_state regs (disable s) ≡ some saved
  pub none_ready : NoneReady s.heap q (suc priority_max)
  pub returns : o ≡ returned tt (restore s.interrupts saved)
  pub valid : IsValid (restore s.interrupts saved) q
  pub same_count : saved.num_processes ≡ s.num_processes

-- A process runs: the first ready one of the highest queue that has one, from the state that was
-- saved for it, in its page directory, and its queue is turned so that it stands last.
pub record Runs (regs : Option CpuState) (s : Sched) (q : Queues) (o : Outcome (Unit {0}))
    : Type 0 where
  pub saved : Sched
  pub saving : save_state regs (disable s) ≡ some saved
  pub pick : Pick s.heap q (suc priority_max)
  pub process : Process
  pub held : saved.heap pick.turn.member ≡ some process
  pub after : Sched
  pub after_eq : after ≡ record saved {
    last = write saved.last pick.priority pick.turn.member;
    current = pick.turn.member;
    directory = process.page_dir;
  }
  pub jumps : o ≡ jumped process.state after
  pub valid : IsValid after (turned s.heap q pick)
  pub same_count : after.num_processes ≡ s.num_processes
  pub same_blocked : (a : Ptr) → blocked_of after.heap a ≡ blocked_of s.heap a

process_switch_saved :
    (fuel : ℕ) (regs : Option CpuState) (s sv : Sched)
    → save_state regs (disable s) ≡ some sv
    → process_switch fuel regs s ≡ dispatch fuel (suc priority_max) s.interrupts sv
unfolding process_switch
process_switch_saved fuel regs s sv e = rw (e, process_switch)

-- Where there are no registers to save, the call comes to choose: nothing can run, or a process does.
pub process_switch-chooses :
    (fuel : ℕ) (regs : Option CpuState) (s : Sched) (q : Queues)
    → SavesNothing regs s
    → IsValid s q
    → ((k : ℕ) → length (q k) ≤ fuel)
    → Idle regs s q (process_switch fuel regs s) ⊎ Runs regs s q (process_switch fuel regs s)
unfolding Pick-same
process_switch-chooses fuel regs s q c v f =
    let sv : Sched = disable s in
    let e = save_nothing regs s c in
    let sd = same-Saved s in
    let queues : (j : ℕ) → IsQueue sv.heap (sv.last j) (q j) = λ j.
      rw sd.same_last
        (IsQueue-frame s.heap sv.heap (s.last j) (q j) (v.queue j) (λ a i. sd.same_next a)) in
    elim (dispatch-cases fuel (suc priority_max) s.interrupts sv q queues f) [
      | inl (idle, r) ↦ inl (record {
        saved = sv;
        saving = e;
        none_ready = λ j l. AllBlocked-same s.heap sv.heap (q j) sd.same_blocked (idle j l);
        returns = process_switch_saved fuel regs s sv e ∙ r;
        valid = Saved-IsValid s sv q v sd (sv.interrupts || s.interrupts);
        same_count = sd.same_count;
      })
      | inr (p, n, a, r) ↦ inr (record {
        saved = sv;
        saving = e;
        pick = Pick-same s.heap sv.heap q (suc priority_max) sd.same_blocked p;
        process = n;
        held = a;
        after = _;
        after_eq = refl;
        jumps = process_switch_saved fuel regs s sv e ∙ r;
        valid =
            turned-IsValid s sv q (suc priority_max)
              (Pick-same s.heap sv.heap q (suc priority_max) sd.same_blocked p) v sd n.page_dir;
        same_count = sd.same_count;
        same_blocked = sd.same_blocked;
      })
    ]

-- On valid queues, with fuel for the longest of them, `process_switch` either is given the registers
-- of a current process, and ends in the copy that runs through the memory, or it finds every process
-- of every queue blocked and returns with the interrupt flag as before, or it jumps to the first
-- ready process of the highest queue that has one, loads its page directory and turns its queue
-- so that this process stands last, which leaves valid queues. It never reads a dangling pointer.
pub process_switch-round_robin :
    (fuel : ℕ) (regs : Option CpuState) (s : Sched) (q : Queues)
    → IsValid s q
    → ((k : ℕ) → length (q k) ≤ fuel)
    → Overruns regs s (process_switch fuel regs s)
      ⊎ (Idle regs s q (process_switch fuel regs s) ⊎ Runs regs s q (process_switch fuel regs s))
process_switch-round_robin fuel regs s q v f = elim (switch-Overruns fuel regs s) [
  | inl c ↦ inr (process_switch-chooses fuel regs s q c v f)
  | inr o ↦ inl o
]
