-- ===== src/Sched/Process/Ring.antt =====
-- The circular list behind a queue of src/sched/process.c, as the list of its members.
use redshift.Base.{
  ℕ, ◌≡◌, refl, ◌≢◌, Bool, true, false, Option, none, some, List, [], ◌∷◌, ◌++◌, arith, ◌==◌, has,
  has-append, Distinct, ◌∙◌, append_assoc, append-nil, length, length-append, ap, Bool-cases, inl,
  inr, eqb→eq, eqb_refl, sym,
}
use redshift.Sched.Process.{Ptr, Process, Heap, write}

abbrev pub next_in : Option Process → Option Ptr
next_in none = none
next_in (some c) = some c.next

abbrev pub blocked_in : Option Process → Bool
blocked_in none = true
blocked_in (some c) = c.blocked

abbrev pub next_of : Heap → Ptr → Option Ptr
next_of h p = next_in (h p)

abbrev pub blocked_of : Heap → Ptr → Bool
blocked_of h p = blocked_in (h p)

-- From `p` the `next` pointers lead through the members of the list, and end at `z`.
abbrev pub Links : Heap → Ptr → List Ptr → Ptr → Type 0
Links h p [] z = p ≡ z
Links h p (m ∷ ms) z = (next_of h p ≡ some m) × Links h m ms z

-- The members of a queue, from the one that is tried first to its `last`.
pub record Ring (h : Heap) (last : Ptr) (ms : List Ptr) : Type 0 where
  pub links : Links h last ms last
  pub nonempty : ms ≢ []
  pub distinct : Distinct ms

pub Links-end :
    (h : Heap) (p m : Ptr) (ms : List Ptr) (z : Ptr) → Links h p (m ∷ ms) z → has z (m ∷ ms) ≡ true
Links-end h p m [] z l = ground arith
Links-end h p m (n ∷ ms) z l = ground (arith, Links-end h m n ms z)

pub Links-inside :
    (h : Heap) (p : Ptr) (us : List Ptr) (m : Ptr) (vs : List Ptr) (z : Ptr)
    → Links h p (us ++ (m ∷ vs)) z
    → (has z (us ++ (m ∷ vs)) ≡ true) × ((b : Ptr) × (next_of h p ≡ some b))
Links-inside h p [] m vs z l = (Links-end h p m vs z l, (m, l.0))
Links-inside h p (u ∷ us) m vs z l = (Links-end h p u (us ++ (m ∷ vs)) z l, (u, l.0))

pub Links-append :
    (h : Heap) (p : Ptr) (us : List Ptr) (y : Ptr) (vs : List Ptr) (z : Ptr)
    → Links h p us y
    → Links h y vs z
    → Links h p (us ++ vs) z
Links-append h p [] y vs z l k = rw l k
Links-append h p (a ∷ us) y vs z l k = (l.0, Links-append h a us y vs z l.1 k)

-- The part up to a member, and the part behind it.
pub Links-split :
    (h : Heap) (p : Ptr) (us : List Ptr) (m : Ptr) (vs : List Ptr) (z : Ptr)
    → Links h p (us ++ (m ∷ vs)) z
    → Links h p (us ++ (m ∷ [])) m × Links h m vs z
Links-split h p [] m vs z l = ((l.0, refl), l.1)
Links-split h p (a ∷ us) m vs z l = let r = Links-split h a us m vs z l.1 in ((l.0, r.0), r.1)

-- The chain is read only at its start and at its members but the last.
pub Links-frame :
    (h g : Heap) (p : Ptr) (ms : List Ptr) (z : Ptr)
    → Links h p ms z
    → Distinct (p ∷ ms)
    → ((a : Ptr) → has a (p ∷ ms) ≡ true → a ≢ z → next_of g a ≡ next_of h a)
    → Links g p ms z
Links-frame h g p [] z l d same = l
Links-frame h g p (m ∷ ms) z l d same = (
  same p (ground arith) (λ e. ground (arith, Links-end h p m ms z l)) ∙ l.0,
  Links-frame h g m ms z l.1 d.1 (λ a i ne. same a (ground arith) ne),
)

-- The last member goes back to the front by its own link, so a chain that leads round may be
-- turned to start behind any member.
pub Links-rotate :
    (h : Heap) (us : List Ptr) (m : Ptr) (vs : List Ptr) (z : Ptr)
    → Links h z (us ++ (m ∷ vs)) z
    → Links h m (vs ++ (us ++ (m ∷ []))) m
Links-rotate h us m vs z l =
    let r = Links-split h z us m vs z l in Links-append h m vs z (us ++ (m ∷ [])) m r.1 r.0

pub Distinct-snoc :
    (xs : List ℕ) (a : ℕ) → Distinct xs → has a xs ≡ false → Distinct (xs ++ (a ∷ []))
Distinct-snoc [] a d out = (refl, tt)
Distinct-snoc (x ∷ xs) a d out =
    (ground (arith, has-append x xs (a ∷ [])), Distinct-snoc xs a d.1 (ground arith))

Distinct-insert :
    (ys : List ℕ) (x : ℕ) (xs : List ℕ)
    → Distinct (ys ++ xs)
    → has x (ys ++ xs) ≡ false
    → Distinct (ys ++ (x ∷ xs))
Distinct-insert [] x xs d out = (out, d)
Distinct-insert (y ∷ ys) x xs d out = (
  ground (arith, has-append y ys (x ∷ xs), has-append y ys xs),
  Distinct-insert ys x xs d.1 (ground arith),
)

pub Distinct-swap : (xs ys : List ℕ) → Distinct (xs ++ ys) → Distinct (ys ++ xs)
Distinct-swap [] ys d = rw append-nil d
Distinct-swap (x ∷ xs) ys d =
    Distinct-insert ys x xs (Distinct-swap xs ys d.1)
      (ground (arith, has-append x ys xs, has-append x xs ys))

-- A ring turned so that it ends at the member `m`.
pub Ring-rotate :
    (h : Heap) (us : List Ptr) (m : Ptr) (vs : List Ptr) (z : Ptr)
    → Ring h z (us ++ (m ∷ vs))
    → Ring h m (vs ++ (us ++ (m ∷ [])))
Ring-rotate h us m vs z r = record {
  links = Links-rotate h us m vs z r.links;
  nonempty = λ e. absurd (
      omega
        (arith, ap length e, length-append {0} vs (us ++ (m ∷ [])), length-append {0} us (m ∷ [])));
  distinct = Distinct-swap (us ++ (m ∷ [])) vs (rw (append_assoc us (m ∷ []) vs) r.distinct);
}

-- Every member that is not the end is allocated.
pub Links-next :
    (h : Heap) (p : Ptr) (ms : List Ptr) (z a : Ptr)
    → Links h p ms z
    → has a (p ∷ ms) ≡ true
    → a ≢ z
    → (b : Ptr) × (next_of h a ≡ some b)
Links-next h p [] z a l i ne = absurd (ne (ground arith))
Links-next h p (m ∷ ms) z a l i ne = elim (Bool-cases (a == p)) [
  | inl here ↦ (m, rw (eqb→eq a p here) l.0)
  | inr there ↦ Links-next h m ms z a l.1 (ground arith) ne
]

pub Ring-next :
    (h : Heap) (z : Ptr) (ms : List Ptr) (a : Ptr)
    → Ring h z ms
    → has a ms ≡ true
    → (b : Ptr) × (next_of h a ≡ some b)
Ring-next h z [] a r i = absurd (r.nonempty refl)
Ring-next h z (m ∷ ms) a r i = elim (Bool-cases (a == z)) [
  | inl here ↦ (m, rw (eqb→eq a z here) r.links.0)
  | inr there ↦ Links-next h z (m ∷ ms) z a r.links (ground arith) (λ e. ground arith)
]

pub Ring-has_last : (h : Heap) (z : Ptr) (ms : List Ptr) → Ring h z ms → has z ms ≡ true
Ring-has_last h z [] r = absurd (r.nonempty refl)
Ring-has_last h z (m ∷ ms) r = Links-end h z m ms z r.links

-- A ring depends on its members' links alone.
pub Ring-frame :
    (h g : Heap) (z : Ptr) (ms : List Ptr)
    → Ring h z ms
    → ((a : Ptr) → has a ms ≡ true → next_of g a ≡ next_of h a)
    → Ring g z ms
Ring-frame h g z [] r same = absurd (r.nonempty refl)
Ring-frame h g z (m ∷ ms) r same = record {
  links = (
    same z (Ring-has_last h z (m ∷ ms) r) ∙ r.links.0,
    Links-frame h g m ms z r.links.1 r.distinct (λ a i ne. same a i),
  );
  nonempty = r.nonempty;
  distinct = r.distinct;
}

pub next-alloc :
    (h : Heap) (a b : Ptr) → next_of h a ≡ some b → (c : Process) × (h a ≡ some c) × (c.next ≡ b)
next-alloc h a b e = ground arith

write_self :
    (h : Heap) (p : Ptr) (v : Option Process) (a : Ptr) → (a == p) ≡ true → write h p v a ≡ v
write_self h p v a i = rw i

write_ne :
    (h : Heap) (p : Ptr) (v : Option Process) (a : Ptr) → (a == p) ≡ false → write h p v a ≡ h a
write_ne h p v a i = rw i

-- Writing a process with the old link, or the old flag, leaves the links or the flags alone.
pub next_of-write :
    (h : Heap) (p : Ptr) (c d : Process) (a : Ptr)
    → h p ≡ some c
    → d.next ≡ c.next
    → next_of (write h p (some d)) a ≡ next_of h a
next_of-write h p c d a e n = elim (Bool-cases (a == p)) [
  | inl i ↦
      ap next_in (write_self h p (some d) a i)
      ∙ ap some n
      ∙ sym (ap next_in (ap h (eqb→eq a p i) ∙ e))
  | inr i ↦ ap next_in (write_ne h p (some d) a i)
]

pub blocked_of-write :
    (h : Heap) (p : Ptr) (c d : Process) (a : Ptr)
    → h p ≡ some c
    → d.blocked ≡ c.blocked
    → blocked_of (write h p (some d)) a ≡ blocked_of h a
blocked_of-write h p c d a e n = elim (Bool-cases (a == p)) [
  | inl i ↦
      ap blocked_in (write_self h p (some d) a i)
      ∙ n
      ∙ sym (ap blocked_in (ap h (eqb→eq a p i) ∙ e))
  | inr i ↦ ap blocked_in (write_ne h p (some d) a i)
]

pub next_of-write_self :
    (h : Heap) (p : Ptr) (d : Process) → next_of (write h p (some d)) p ≡ some d.next
next_of-write_self h p d = ap next_in (write_self h p (some d) p (eqb_refl p))

pub next_of-write_ne :
    (h : Heap) (p : Ptr) (d : Process) (a : Ptr)
    → (a == p) ≡ false
    → next_of (write h p (some d)) a ≡ next_of h a
next_of-write_ne h p d a e = ap next_in (write_ne h p (some d) a e)
