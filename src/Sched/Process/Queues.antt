-- ===== src/Sched/Process/Queues.antt =====
-- The invariant of the process table of src/sched/process.c: what its queues hold.
use redshift.Base.{
  ℕ, ◌≡◌, ◌≢◌, ◌⊎◌, inl, inr, true, false, none, some, List, [], arith, has, All, Bool-cases,
}
use redshift.Sched.Process.{Ptr, null, Heap, Sched}
use redshift.Sched.Process.Ring.{Ring, next_of, blocked_of, Ring-next, Ring-frame}

-- The members of each queue, the next to run first.
abbrev pub Queues : Type 0
Queues = ℕ → List Ptr

-- An empty queue has no `last`; any other is a ring that ends there.
abbrev pub IsQueue : Heap → Ptr → List Ptr → Type 0
IsQueue h last ms = ((last ≡ null) × (ms ≡ [])) ⊎ ((last ≢ null) × Ring h last ms)

pub record IsValid (s : Sched) (q : Queues) : Type 0 where
  pub queue : (k : ℕ) → IsQueue s.heap (s.last k) (q k)
  pub apart : (j k : ℕ) (a : Ptr) → j ≢ k → has a (q j) ≡ true → has a (q k) ≡ false
  pub no_null : next_of s.heap null ≡ none
  pub current : (s.current ≡ null) ⊎ ((k : ℕ) × (has s.current (q k) ≡ true))

abbrev pub AllBlocked : Heap → List Ptr → Type 0
AllBlocked h ms = All (λ a. blocked_of h a ≡ true) ms

pub IsQueue-next :
    (h : Heap) (z : Ptr) (ms : List Ptr) (a : Ptr)
    → IsQueue h z ms
    → has a ms ≡ true
    → (b : Ptr) × (next_of h a ≡ some b)
IsQueue-next h z ms a (inl (e, empty)) i = absurd (ground arith)
IsQueue-next h z ms a (inr (e, r)) i = Ring-next h z ms a r i

pub IsQueue-frame :
    (h g : Heap) (z : Ptr) (ms : List Ptr)
    → IsQueue h z ms
    → ((a : Ptr) → has a ms ≡ true → next_of g a ≡ next_of h a)
    → IsQueue g z ms
IsQueue-frame h g z ms (inl e) same = inl e
IsQueue-frame h g z ms (inr (e, r)) same = inr (e, Ring-frame h g z ms r same)

-- An address that holds no process stands in no queue.
pub not-has_of_none :
    (s : Sched) (q : Queues) (k : ℕ) (a : Ptr) → IsValid s q → s.heap a ≡ none → has a (q k) ≡ false
not-has_of_none s q k a v unused = elim (Bool-cases (has a (q k))) [
  | inr out ↦ out
  | inl i ↦ absurd (ground (arith, IsQueue-next s.heap (s.last k) (q k) a (v.queue k) i))
]
