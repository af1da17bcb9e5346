-- ===== src/Sched/Process/Link.antt =====
-- What linking a process behind the last one of its queue does to the rings of src/sched/process.c.
use redshift.Base.{
  ℕ, ◌≡◌, refl, ◌≢◌, inl, inr, Bool, true, false, ◌||◌, ◌&&◌, none, some, List, [], ◌∷◌, ◌++◌, ◌∙◌,
  sym, arith, ◌==◌, has, has-append, length, Bool-cases, ap, false≢true, eqb→eq, ne→eqb,
}
use redshift.Sched.Process.{Ptr, null, Process, Heap, Sched, write}
use redshift.Sched.Process.Ring.{
  Ring, next_of, next_in, Links-append, Links-frame, Distinct-snoc, next_of-write_self,
  next_of-write_ne, Ring-has_last,
}
use redshift.Sched.Process.Queues.{Queues, IsQueue, IsValid, IsQueue-frame, not-has_of_none}

Ring-snoc :
    (h g : Heap) (z p : Ptr) (ms : List Ptr)
    → Ring h z ms
    → has p ms ≡ false
    → next_of g p ≡ next_of h z
    → next_of g z ≡ some p
    → ((a : Ptr) → (a == p) ≡ false → (a == z) ≡ false → next_of g a ≡ next_of h a)
    → Ring g p (ms ++ (p ∷ []))
Ring-snoc h g z p [] r out first last same = absurd (r.nonempty refl)
Ring-snoc h g z p (m ∷ ms) r out first last same = record {
  links = (
    first ∙ r.links.0,
    Links-append g m ms z (p ∷ []) p
        (Links-frame h g m ms z r.links.1 r.distinct
          (λ a i ne. same a (ne→eqb a p (λ e. ground arith)) (ne→eqb a z ne)))
        (last, refl),
  );
  nonempty = λ e. absurd (omega (arith, ap length e));
  distinct = Distinct-snoc (m ∷ ms) p r.distinct out;
}

-- The two writes that link `p` behind the process at `z`.
abbrev pub link : Heap → (p z : Ptr) → Process → Process → Heap
link h p z process before =
    write (write h p (some (record process { next = before.next }))) z
      (some (record before { next = p }))

-- The queues once `p` stands at the back of the queue `k`.
abbrev pub queued : Queues → ℕ → Ptr → Queues
queued q k p = write q k (q k ++ (p ∷ []))

queued_self :
    (q : Queues) (k : ℕ) (p : Ptr) (j : ℕ) → (j == k) ≡ true → queued q k p j ≡ q k ++ (p ∷ [])
queued_self q k p j e = rw e

queued_ne : (q : Queues) (k : ℕ) (p : Ptr) (j : ℕ) → (j == k) ≡ false → queued q k p j ≡ q j
queued_ne q k p j e = rw e

-- A queue whose members all differ from two addresses does not see writes there.
module _ (s : Sched) (q : Queues) (k : ℕ) (p : Ptr) (v : IsValid s q) (ne : p ≢ null)
    (unused : s.heap p ≡ none) where
  out : (j : ℕ) → has p (q j) ≡ false
  out j = not-has_of_none s q j p v unused

  has-queued : (j : ℕ) (a : Ptr) → has a (queued q k p j) ≡ (has a (q j) || ((j == k) && (a == p)))
  has-queued j a = elim (Bool-cases (j == k)) [
    | inl e ↦ rw (e, eqb→eq j k e) (ground (arith, has-append a (q k) (p ∷ [])))
    | inr e ↦ rw e (ground arith)
  ]

  queued-apart :
      (i j : ℕ) (a : Ptr) → i ≢ j → has a (queued q k p i) ≡ true → has a (queued q k p j) ≡ false
  queued-apart i j a d h = elim (Bool-cases (a == p)) [
    | inl e ↦
        let ei : has a (q i) ≡ false = ap (λ x. has x (q i)) (eqb→eq a p e) ∙ out i in
        let ej : has a (q j) ≡ false = ap (λ x. has x (q j)) (eqb→eq a p e) ∙ out j in
        ground (arith, has-queued i a, has-queued j a)
    | inr e ↦ ground (arith, has-queued i a, has-queued j a, v.apart i j a)
  ]

  has-queued_self : has p (queued q k p k) ≡ true
  has-queued_self = ground (arith, has-queued k p)

has-ne : (a p : ℕ) (xs : List ℕ) → has a xs ≡ true → has p xs ≡ false → (a == p) ≡ false
has-ne a p xs i o = elim (Bool-cases (a == p)) [
  | inl e ↦ absurd (false≢true (sym o ∙ ap (λ x. has x xs) (sym (eqb→eq a p e)) ∙ i))
  | inr e ↦ e
]

queued-IsQueue :
    (s : Sched) (q : Queues) (k : ℕ) (p : Ptr) (g : Heap)
    → p ≢ null
    → Ring g p (q k ++ (p ∷ []))
    → ((j : ℕ) → (j == k) ≡ false → IsQueue g (s.last j) (q j))
    → (j : ℕ) → IsQueue g (write s.last k p j) (queued q k p j)
queued-IsQueue s q k p g ne r rest j = elim (Bool-cases (j == k)) [
  | inl e ↦ rw e (inr (ne, r))
  | inr e ↦ rw e (rest j e)
]

Ring-one :
    (h : Heap) (p : Ptr) (c : Process) → Ring (write h p (some (record c { next = p }))) p (p ∷ [])
Ring-one h p c = record {
  links = (next_of-write_self h p (record c { next = p }), refl);
  nonempty = λ e. absurd (omega (arith, ap length e));
  distinct = (refl, tt);
}

-- The links once `p` stands behind the process at `z`.
module _ (h : Heap) (p z : Ptr) (c b : Process) (apart : (p == z) ≡ false) where
  link-new : next_of (link h p z c b) p ≡ some b.next
  link-new =
      next_of-write_ne (write h p (some (record c { next = b.next }))) z (record b { next = p }) p
        apart
      ∙ next_of-write_self h p (record c { next = b.next })

  link-last : next_of (link h p z c b) z ≡ some p
  link-last =
      next_of-write_self (write h p (some (record c { next = b.next }))) z (record b { next = p })

  link-other :
      (a : Ptr) → (a == p) ≡ false → (a == z) ≡ false → next_of (link h p z c b) a ≡ next_of h a
  link-other a np nz =
      next_of-write_ne (write h p (some (record c { next = b.next }))) z (record b { next = p }) a
        nz
      ∙ next_of-write_ne h p (record c { next = b.next }) a np

-- The queue itself, once `p` is linked in, and the other queues.
module _ (s : Sched) (q : Queues) (k : ℕ) (p : Ptr) (c : Process) (v : IsValid s q) (ne : p ≢ null)
    (unused : s.heap p ≡ none) where
  pub first-IsValid :
      (d : ℕ) (w : Bool)
      → s.last k ≡ null
      → q k ≡ []
      → IsValid
          (record s {
            heap = write s.heap p (some (record c { next = p }));
            last = write s.last k p;
            current = p;
            num_processes = d;
            interrupts = w;
          })
          (queued q k p)
  first-IsValid d w e empty = record {
    queue = queued-IsQueue s q k p _ ne (rw empty (Ring-one s.heap p c)) λ j e.
        IsQueue-frame s.heap _ (s.last j) (q j) (v.queue j) λ a i.
          next_of-write_ne s.heap p (record c { next = p }) a
            (has-ne a p (q j) i (out s q k p v ne unused j));
    apart = queued-apart s q k p v ne unused;
    no_null =
        next_of-write_ne s.heap p (record c { next = p }) null (ne→eqb null p (λ x. ne (sym x)))
        ∙ v.no_null;
    current = inr (k, has-queued_self s q k p v ne unused);
  }

  pub linked-IsValid :
      (b : Process) (d : ℕ) (w : Bool)
      → s.last k ≢ null
      → Ring s.heap (s.last k) (q k)
      → s.heap (s.last k) ≡ some b
      → IsValid
          (record s {
            heap = link s.heap p (s.last k) c b;
            last = write s.last k p;
            num_processes = d;
            interrupts = w;
          })
          (queued q k p)
  linked-IsValid b d w z r e = record {
    queue =
        queued-IsQueue s q k p _ ne
          (Ring-snoc s.heap _ (s.last k) p (q k) r (out s q k p v ne unused k)
            (link-new s.heap p (s.last k) c b pz ∙ sym (ap next_in e))
            (link-last s.heap p (s.last k) c b pz) (link-other s.heap p (s.last k) c b pz))
          λ j d'. IsQueue-frame s.heap _ (s.last j) (q j) (v.queue j) λ a i.
            link-other s.heap p (s.last k) c b pz a (has-ne a p (q j) i (out s q k p v ne unused j))
              (has-ne a (s.last k) (q j) i (
                v.apart k j (s.last k) (λ x. ground arith)
                  (Ring-has_last s.heap (s.last k) (q k) r)));
    apart = queued-apart s q k p v ne unused;
    no_null =
        link-other s.heap p (s.last k) c b pz null (ne→eqb null p (λ x. ne (sym x)))
          (ne→eqb null (s.last k) (λ x. z (sym x)))
        ∙ v.no_null;
    current = elim v.current [
      | inl x ↦ inl x
      | inr (j, i) ↦ inr (j, ground (arith, has-queued s q k p v ne unused j s.current))
    ];
  }
    where
      pz : (p == s.last k) ≡ false
      pz = ne→eqb p (s.last k) (λ x. ground (arith, ap s.heap x))
