-- ===== src/Sched/Process/Switch.antt =====
-- `process_switch` of src/sched/process.c: round robin within a queue, the highest queue first.
use redshift.Base.{
  ℕ, zero, suc, ◌≤◌, ◌<◌, ◌≡◌, refl, ◌⊎◌, inl, inr, Bool, false, some, List, [], ◌∷◌, ◌++◌, ◌∙◌,
  arith, Distinct, length, Bool-cases, ap, length-append, below_suc,
}
use redshift.Sched.Process.{
  Ptr, Process, Heap, Sched, returned, jumped, write, restore, found, exhausted, walk, dispatch,
}
use redshift.Sched.Process.Ring.{Links, next_of, blocked_of, next-alloc, Links-end, Links-inside}
use redshift.Sched.Process.Queues.{Queues, IsQueue, AllBlocked}

-- The first member that is not blocked, with what stands before and behind it.
pub record Turn (h : Heap) (ms : List Ptr) : Type 0 where
  pub front : List Ptr
  pub member : Ptr
  pub back : List Ptr
  pub split : ms ≡ front ++ (member ∷ back)
  pub skipped : AllBlocked h front
  pub ready : blocked_of h member ≡ false

first_ready : (h : Heap) (ms : List Ptr) → AllBlocked h ms ⊎ Turn h ms
first_ready h [] = inl tt
first_ready h (m ∷ ms) = elim (Bool-cases (blocked_of h m)) [
  | inr b ↦
      inr (record { front = []; member = m; back = ms; split = refl; skipped = tt; ready = b })
  | inl b ↦ elim (first_ready h ms) [
    | inl all ↦ inl (b, all)
    | inr t ↦ inr (record {
      front = m ∷ t.front;
      member = t.member;
      back = t.back;
      split = ground (arith, t.split);
      skipped = (b, t.skipped);
      ready = t.ready;
    })
  ]
]

pub ready-alloc :
    (h : Heap) (m : Ptr)
    → blocked_of h m ≡ false
    → (n : Process) × (h m ≡ some n) × (n.blocked ≡ false)
ready-alloc h m r = ground arith

walk-found :
    (k : ℕ) (h : Heap) (p : Ptr) (us : List Ptr) (m : Ptr) (vs : List Ptr) (z : Ptr)
    → Links h p (us ++ (m ∷ vs)) z
    → Distinct (us ++ (m ∷ vs))
    → AllBlocked h us
    → blocked_of h m ≡ false
    → length us < k
    → (n : Process) × (h m ≡ some n) × (walk k p z h ≡ found m n)
unfolding walk
walk-found zero h p us m vs z l d b r fuel = absurd (omega arith)
walk-found (suc k) h p [] m vs z l d b r fuel =
    let (c, e, next) = next-alloc h p m l.0 in
    let (n, e', ready) = ready-alloc h m r in (n, e', ground arith)
walk-found (suc k) h p (u ∷ us) m vs z l d b r fuel =
    let (c, e, next) = next-alloc h p u l.0 in
    let (i, (y, a)) = Links-inside h u us m vs z l.1 in
    let (n, e', f) = walk-found k h u us m vs z l.1 d.1 b.1 r (omega arith) in (n, e', ground arith)

walk-exhausted :
    (k : ℕ) (h : Heap) (p m : Ptr) (ms : List Ptr) (z y : Ptr)
    → Links h p (m ∷ ms) z
    → Distinct (m ∷ ms)
    → AllBlocked h (m ∷ ms)
    → next_of h z ≡ some y
    → length ms < k
    → walk k p z h ≡ exhausted
unfolding walk
walk-exhausted zero h p m ms z y l d b a fuel = absurd (omega arith)
walk-exhausted (suc k) h p m [] z y l d b a fuel = ground (arith)
walk-exhausted (suc k) h p m (n ∷ ms) z y l d b a fuel =
    ground (arith, walk-exhausted k h m n ms z y, Links-end h m n ms z)

pub Turn-lt : (h : Heap) (ms : List Ptr) (t : Turn h ms) → length t.front < length ms
Turn-lt h ms t = omega (arith, ap length t.split, length-append {0} t.front (t.member ∷ t.back))

-- The queues from priority `k - 1` down to 0 hold no process that could run.
abbrev pub NoneReady : Heap → Queues → ℕ → Type 0
NoneReady h q k = (j : ℕ) → j < k → AllBlocked h (q j)

-- What the search through the queues below priority `k` comes to: `member` is the first ready
-- process of the highest queue that has one.
pub record Pick (h : Heap) (q : Queues) (k : ℕ) : Type 0 where
  pub priority : ℕ
  pub below : priority < k
  pub turn : Turn h (q priority)
  pub higher : (j : ℕ) → priority < j → j < k → AllBlocked h (q j)

dispatch-step :
    (fuel k : ℕ) (saved : Bool) (s : Sched) (ms : List Ptr)
    → IsQueue s.heap (s.last k) ms
    → AllBlocked s.heap ms
    → length ms ≤ fuel
    → dispatch fuel (suc k) saved s ≡ dispatch fuel k saved s
unfolding dispatch
dispatch-step fuel k saved s ms (inl (e, empty)) b f = ground arith
dispatch-step fuel k saved s [] (inr (e, r)) b f = absurd (r.nonempty refl)
dispatch-step fuel k saved s (m ∷ ms) (inr (e, r)) b f =
    let x =
      walk-exhausted fuel s.heap (s.last k) m ms (s.last k) m r.links r.distinct b r.links.0 f in
    ground arith

dispatch-Turn :
    (fuel k : ℕ) (saved : Bool) (s : Sched) (ms : List Ptr)
    → IsQueue s.heap (s.last k) ms
    → (t : Turn s.heap ms) → length ms ≤ fuel
    → (n : Process) × (s.heap t.member ≡ some n)
      × (dispatch fuel (suc k) saved s
          ≡ jumped n.state (record s {
            last = write s.last k t.member;
            current = t.member;
            directory = n.page_dir;
          }))
unfolding dispatch
dispatch-Turn fuel k saved s ms (inl (e, empty)) t f =
    absurd (omega (arith, Turn-lt s.heap ms t, ap length empty))
dispatch-Turn fuel k saved s ms (inr (e, r)) t f =
    let (n, a, w) =
      walk-found fuel s.heap (s.last k) t.front t.member t.back (s.last k) (rw t.split at r.links)
        (rw t.split at r.distinct) t.skipped t.ready (omega (arith, Turn-lt s.heap ms t)) in
    (n, a, ground arith)

-- Where the search stops, for every state of the queues.
pub dispatch-cases :
    (fuel k : ℕ) (saved : Bool) (s : Sched) (q : Queues)
    → ((j : ℕ) → IsQueue s.heap (s.last j) (q j))
    → ((j : ℕ) → length (q j) ≤ fuel)
    → (NoneReady s.heap q k × (dispatch fuel k saved s ≡ returned tt (restore saved s)))
      ⊎ ((p : Pick s.heap q k) × (n : Process) × (s.heap p.turn.member ≡ some n)
          × (dispatch fuel k saved s
              ≡ jumped n.state (record s {
                last = write s.last p.priority p.turn.member;
                current = p.turn.member;
                directory = n.page_dir;
              })))
unfolding dispatch
dispatch-cases fuel zero saved s q v f = inl ((λ j h. absurd (omega arith)), refl)
dispatch-cases fuel (suc k) saved s q v f = elim (first_ready s.heap (q k)) [
  | inr t ↦
      let (n, a, e) = dispatch-Turn fuel k saved s (q k) (v k) t (f k) in
      inr (
        record {
          priority = k;
          below = omega arith;
          turn = t;
          higher = λ j h l. absurd (omega arith);
        },
        n,
        a,
        e,
      )
  | inl b ↦
      let step = dispatch-step fuel k saved s (q k) (v k) b (f k) in
      elim (dispatch-cases fuel k saved s q v f) [
        | inl (idle, e) ↦ inl (below_suc (λ j. AllBlocked s.heap (q j)) k idle b, step ∙ e)
        | inr (p, n, a, e) ↦ inr (
          record {
            priority = p.priority;
            below = omega arith;
            turn = p.turn;
            higher = λ j above l.
                below_suc (λ i. p.priority < i → AllBlocked s.heap (q i)) k
                  (λ i l' up. p.higher i up l') (λ up. b) j l above;
          },
          n,
          a,
          step ∙ e,
        )
      ]
]
