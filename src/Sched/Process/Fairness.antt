-- ===== src/Sched/Process/Fairness.antt =====
-- Repeated calls of `process_switch` of src/sched/process.c: no ready process waits for ever.
use redshift.Base.{
  ℕ, zero, suc, ◌≤◌, ◌<◌, ◌≡◌, refl, sym, ap, ◌∙◌, subst, ◌⊎◌, inl, inr, true, false, none, List,
  [], ◌∷◌, ◌++◌, append_assoc, length, arith, Bool-cases, eqb_refl, ltb, ltb→lt,
}
use redshift.Sched.CpuState.{CpuState}
use redshift.Sched.Process.{Ptr, Heap, Sched, jumped, priority_max, process_switch}
use redshift.Sched.Process.Ring.{blocked_of}
use redshift.Sched.Process.Queues.{Queues, IsValid, AllBlocked}
use redshift.Sched.Process.Switch.{Pick, NoneReady}
use redshift.Sched.Process.RoundRobin.{
  process_switch-chooses, turned, turned_self, length-turned, AllBlocked-same,
}

-- One of the next `n` calls, which are given no registers to save, jumps to the process at `m`.
unfoldable pub RunsWithin : (fuel n : ℕ) → Ptr → Sched → Type 0
RunsWithin fuel zero m s = ⊥
RunsWithin fuel (suc n) m s =
    (st : CpuState) × (after : Sched) × (process_switch fuel none s ≡ jumped st after)
    × ((after.current ≡ m) ⊎ RunsWithin fuel n m after)

blocked-ready : (h : Heap) (m : Ptr) → blocked_of h m ≡ true → blocked_of h m ≡ false → ⊥
blocked-ready h m b r = ground arith

-- A ready process is not among blocked ones.
AllBlocked-middle :
    (h : Heap) (us : List Ptr) (m : Ptr) (vs : List Ptr)
    → blocked_of h m ≡ false
    → AllBlocked h (us ++ (m ∷ vs))
    → ⊥
AllBlocked-middle h [] m vs r b = blocked-ready h m b.0 r
AllBlocked-middle h (u ∷ us) m vs r b = AllBlocked-middle h us m vs r b.1

-- Where the first ready process `x` stands in a queue that holds a ready process `m`: it is `m`, or
-- it stands in front of it.
record Ahead (us : List Ptr) (m : Ptr) (vs f : List Ptr) (x : Ptr) (b : List Ptr) : Type 0 where
  rest : List Ptr
  shorter : length rest < length us
  behind : b ≡ rest ++ (m ∷ vs)

head-eq : {x y : Ptr} {xs ys : List Ptr} → (x ∷ xs) ≡ (y ∷ ys) → x ≡ y
head-eq e = cc

tail-eq : {x y : Ptr} {xs ys : List Ptr} → (x ∷ xs) ≡ (y ∷ ys) → xs ≡ ys
tail-eq e = cc

first-Ahead :
    (h : Heap) (us : List Ptr) (m : Ptr) (vs f : List Ptr) (x : Ptr) (b : List Ptr)
    → us ++ (m ∷ vs) ≡ f ++ (x ∷ b)
    → AllBlocked h f
    → blocked_of h m ≡ false
    → (x ≡ m) ⊎ Ahead us m vs f x b
first-Ahead h [] m vs [] x b e blocked r = inl (sym (head-eq e))
first-Ahead h (u ∷ us) m vs [] x b e blocked r =
    inr (record { rest = us; shorter = omega arith; behind = sym (tail-eq e) })
first-Ahead h [] m vs (y ∷ f) x b e blocked r =
    absurd (blocked-ready h m (subst (λ a. blocked_of h a ≡ true) (sym (head-eq e)) blocked.0) r)
first-Ahead h (u ∷ us) m vs (y ∷ f) x b e blocked r =
    elim (first-Ahead h us m vs f x b (tail-eq e) blocked.1 r) [
      | inl same ↦ inl same
      | inr a ↦
          inr (record { rest = a.rest; shorter = omega (arith, a.shorter); behind = a.behind })
    ]

-- The queue that is served: the highest one with a ready process.
pub record IsServed (s : Sched) (q : Queues) (k : ℕ) (m : Ptr) : Type 0 where
  pub below : k < suc priority_max
  pub higher : (j : ℕ) → k < j → j < suc priority_max → AllBlocked s.heap (q j)
  pub ready : blocked_of s.heap m ≡ false

module _ (s : Sched) (q : Queues) (k : ℕ) (us : List Ptr) (m : Ptr) (vs : List Ptr)
    (split : q k ≡ us ++ (m ∷ vs)) (served : IsServed s q k m) where
  not-idle : NoneReady s.heap q (suc priority_max) → ⊥
  not-idle none_ready =
      AllBlocked-middle s.heap us m vs served.ready
        (subst (AllBlocked s.heap) split (none_ready k served.below))

  picks : (p : Pick s.heap q (suc priority_max)) → p.priority ≡ k
  picks p = elim (Bool-cases (ltb p.priority k)) [
    | inl low ↦ absurd (
        AllBlocked-middle s.heap us m vs served.ready
          (subst (AllBlocked s.heap) split (p.higher k (ltb→lt p.priority k low) served.below)))
    | inr e ↦ elim (Bool-cases (ltb k p.priority)) [
      | inl high ↦ absurd (
          AllBlocked-middle s.heap p.turn.front p.turn.member p.turn.back p.turn.ready (
            subst (AllBlocked s.heap) p.turn.split
              (served.higher p.priority (ltb→lt k p.priority high) p.below)))
      | inr e' ↦ ground arith
    ]
  ]

  -- After the turn the process that waits stands farther in front.
  moves_up :
      (p : Pick s.heap q (suc priority_max))
      → (p.turn.member ≡ m)
        ⊎ ((us' : List Ptr) × (vs' : List Ptr) × (length us' < length us)
            × (turned s.heap q p k ≡ us' ++ (m ∷ vs')))
  moves_up p =
      let same : q p.priority ≡ q k = ap q (picks p) in
      elim (first-Ahead s.heap us m vs p.turn.front p.turn.member p.turn.back
        (sym split ∙ sym same ∙ p.turn.split) p.turn.skipped served.ready) [
          | inl e ↦ inl e
          | inr a ↦ inr (
            a.rest,
            vs ++ (p.turn.front ++ (p.turn.member ∷ [])),
            a.shorter,
            turned_self s.heap q (suc priority_max) p k (rw (picks p) (eqb_refl k))
                ∙ ap (λ b. b ++ (p.turn.front ++ (p.turn.member ∷ []))) a.behind
                ∙ append_assoc a.rest (m ∷ vs) (p.turn.front ++ (p.turn.member ∷ [])),
          )
        ]

  turned_higher : (p : Pick s.heap q (suc priority_max)) (j : ℕ) → k < j → turned s.heap q p j ≡ q j
  turned_higher p j l = ground (arith, picks p)

  -- The queue is still the one that is served.
  still-IsServed :
      (p : Pick s.heap q (suc priority_max)) (after : Sched)
      → ((a : Ptr) → blocked_of after.heap a ≡ blocked_of s.heap a)
      → IsServed after (turned s.heap q p) k m
  still-IsServed p after same = record {
    below = served.below;
    higher = λ j above l.
        AllBlocked-same after.heap s.heap (turned s.heap q p j) (λ a. sym (same a))
          (subst (AllBlocked s.heap) (sym (turned_higher p j above)) (served.higher j above l));
    ready = same m ∙ served.ready;
  }

runs_now :
    (fuel n : ℕ) (m : Ptr) (s after : Sched) (st : CpuState)
    → process_switch fuel none s ≡ jumped st after
    → (after.current ≡ m) ⊎ RunsWithin fuel n m after
    → RunsWithin fuel (suc n) m s
unfolding RunsWithin
runs_now fuel n m s after st e r = (st, after, e, r)

-- A ready process of the highest queue that has one is jumped to within as many calls of
-- `process_switch` as there are processes up to it in its queue, where the calls are given no
-- registers to save, as long as no process is blocked or unblocked between them: none of the other ready processes
-- can keep it waiting, and on valid queues each of these calls does jump to a process.
pub process_switch-fair :
    (fuel n : ℕ) (s : Sched) (q : Queues) (k : ℕ) (us : List Ptr) (m : Ptr) (vs : List Ptr)
    → IsValid s q
    → ((j : ℕ) → length (q j) ≤ fuel)
    → q k ≡ us ++ (m ∷ vs)
    → IsServed s q k m
    → length us < n
    → RunsWithin fuel n m s
process_switch-fair fuel zero s q k us m vs v f split served l = absurd (omega arith)
process_switch-fair fuel (suc n) s q k us m vs v f split served l =
    elim (process_switch-chooses fuel none s q (inl refl) v f) [
      | inl idle ↦ absurd (not-idle s q k us m vs split served idle.none_ready)
      | inr r ↦
          runs_now fuel n m s r.after r.process.state r.jumps
            (elim (moves_up s q k us m vs split served r.pick) [
              | inl e ↦ inl (ap (λ a. a.current) r.after_eq ∙ e)
              | inr (us', vs', shorter, split') ↦ inr (
                  process_switch-fair fuel n r.after (turned s.heap q r.pick) k us' m vs' r.valid
                    (λ j. rw (length-turned s.heap q (suc priority_max) r.pick j) (f j)) split'
                    (still-IsServed s q k us m vs split served r.pick r.after r.same_blocked)
                    (omega (arith, shorter)))
            ])
    ]
