-- ===== src/Libk/List/Chain.antt =====
-- The nodes of a list of libk/klist.c, what an append does to them, and what an index finds.
use redshift.Base.{
  ℕ, zero, suc, ◌+◌, ◌%◌, ◌≤◌, ◌<◌, ◌≡◌, ◌≢◌, ◌∙◌, refl, sym, ap, subst, true, false, some, List,
  [], ◌∷◌, ◌++◌, map, length, has, get_or, ◌==◌, arith, ne→eqb, eqb_refl, lt→ltb, Bool-cases, inl,
  inr, length-append,
}
use redshift.Base.Word.{u32_mod}
use redshift.Libk.List.{
  KlistNode, Klist, Store, write, follow, get_node_by_index, klist_append, klist_index, klist_pop,
  free,
}

-- The nodes from `p` on, by their addresses and data, lead to `q`.
abbrev pub Seg : Store → (p : ℕ) → List (ℕ × ℕ) → (q : ℕ) → Type 0
Seg s p [] q = p ≡ q
Seg s p ((a, d) ∷ cells) q = (p ≡ a) × ((s.nodes a).data_ ≡ d) × Seg s (s.nodes a).next cells q

abbrev pub addresses : List (ℕ × ℕ) → List ℕ
addresses cells = map (λ c. c.0) cells

abbrev pub contents : List (ℕ × ℕ) → List ℕ
contents cells = map (λ c. c.1) cells

-- The list holds the data of the cells of `front` and then `d`, which is in the last node.
abbrev pub IsList : Store → Klist → (front : List (ℕ × ℕ)) → (d : ℕ) → Type 0
IsList s list front d =
    Seg s list.head front list.last
    × (list.head ≢ 0)
    × ((s.nodes list.last).data_ ≡ d)
    × ((s.nodes list.last).next ≡ 0)
    × (list.size ≡ suc (length front))
    × (has list.last (addresses front) ≡ false)

write_ne :
    (s : Store) (a b : ℕ) (n : KlistNode) → (b == a) ≡ false → (write s a n).nodes b ≡ s.nodes b
write_ne s a b n h = rw h

write_self : (s : Store) (a : ℕ) (n : KlistNode) → (write s a n).nodes a ≡ n
write_self s a n = rw (eqb_refl a)

outside :
    (a b d : ℕ) (cells : List (ℕ × ℕ))
    → has a (addresses ((b, d) ∷ cells)) ≡ false
    → ((b == a) ≡ false) × (has a (addresses cells) ≡ false)
outside a b d cells h = ground arith

Seg-write :
    (s : Store) (p : ℕ) (cells : List (ℕ × ℕ)) (q a : ℕ) (n : KlistNode)
    → has a (addresses cells) ≡ false
    → Seg s p cells q
    → Seg (write s a n) p cells q
Seg-write s p [] q a n h g = g
Seg-write s p ((b, d) ∷ cells) q a n h (e, f, g) =
    let (ne, rest) = outside a b d cells h in
    (
      e,
      ap (λ m. m.data_) (write_ne s a b n ne) ∙ f,
      subst (λ m. Seg (write s a n) m.next cells q) (sym (write_ne s a b n ne))
          (Seg-write s (s.nodes b).next cells q a n rest g),
    )

Seg-snoc :
    (s : Store) (p : ℕ) (cells : List (ℕ × ℕ)) (q d r : ℕ)
    → Seg s p cells q
    → (s.nodes q).data_ ≡ d
    → (s.nodes q).next ≡ r
    → Seg s p (cells ++ (q, d) ∷ []) r
Seg-snoc s p [] q d r g e f = (g, e, f)
Seg-snoc s p ((b, c) ∷ cells) q d r (x, y, g) e f = (x, y, Seg-snoc s _ cells q d r g e f)

follow-Seg :
    (s : Store) (p : ℕ) (cells : List (ℕ × ℕ)) (q i : ℕ)
    → Seg s p cells q
    → i ≤ length cells
    → follow s i p ≡ get_or (addresses cells ++ q ∷ []) i 0
unfolding follow
follow-Seg s p [] q zero g h = g
follow-Seg s p [] q (suc i) g h = absurd (omega arith)
follow-Seg s p ((b, c) ∷ cells) q zero (x, y, g) h = x
follow-Seg s p ((b, c) ∷ cells) q (suc i) (x, y, g) h =
    ap (λ m. follow s i (s.nodes m).next) x
    ∙ follow-Seg s (s.nodes b).next cells q i g (omega arith)

data-Seg :
    (s : Store) (p : ℕ) (cells : List (ℕ × ℕ)) (q d i : ℕ)
    → Seg s p cells q
    → (s.nodes q).data_ ≡ d
    → i ≤ length cells
    → (s.nodes (follow s i p)).data_ ≡ get_or (contents cells ++ d ∷ []) i 0
unfolding follow
data-Seg s p [] q d zero g e h = ap (λ m. (s.nodes m).data_) g ∙ e
data-Seg s p [] q d (suc i) g e h = absurd (omega arith)
data-Seg s p ((b, c) ∷ cells) q d zero (x, y, g) e h = ap (λ m. (s.nodes m).data_) x ∙ y
data-Seg s p ((b, c) ∷ cells) q d (suc i) (x, y, g) e h =
    ap (λ m. (s.nodes (follow s i (s.nodes m).next)).data_) x
    ∙ data-Seg s (s.nodes b).next cells q d i g e (omega arith)

get_or-last :
    (front : List (ℕ × ℕ)) (d i : ℕ) → i ≡ length front → get_or (contents front ++ d ∷ []) i 0 ≡ d
get_or-last [] d zero e = refl
get_or-last [] d (suc i) e = absurd (omega arith)
get_or-last (c ∷ front) d zero e = absurd (omega arith)
get_or-last (c ∷ front) d (suc i) e = get_or-last front d i (omega arith)

-- Looking up an index below the size of a list gives the element at that index.
klist_index-IsList :
    (s : Store) (list : Klist) (front : List (ℕ × ℕ)) (d index : ℕ)
    → IsList s list front d
    → index < list.size
    → klist_index s list index ≡ some (get_or (contents front ++ d ∷ []) index 0)
unfolding klist_index
klist_index-IsList s list front d index (g, h, e, n, z, f) lt =
    elim (Bool-cases (index + 1 == list.size)) [
      | inl t ↦
          rw (lt→ltb index list.size lt, t)
            (ap some (e ∙ sym (get_or-last front d index (ground arith))))
      | inr t ↦
          rw (lt→ltb index list.size lt, t)
            (ap some (data-Seg s list.head front list.last d index g e (omega arith)))
    ]

-- In a list, for an index behind the first and before the last, `get_node_by_index` gives the node
-- at the next index.
get_node_by_index-behind :
    (s : Store) (list : Klist) (front : List (ℕ × ℕ)) (d index : ℕ)
    → IsList s list front d
    → 0 < index
    → index + 1 < list.size
    → get_node_by_index s list index ≡ get_or (addresses front ++ list.last ∷ []) (suc index) 0
get_node_by_index-behind s list front d index (g, h, e, n, z, f) pos lt =
    rw (ne→eqb index 0 (λ o. omega arith), ne→eqb (index + 1) list.size (λ o. omega arith))
      (follow-Seg s list.head front list.last (suc index) g (omega arith))

has-snoc :
    (a b d : ℕ) (cells : List (ℕ × ℕ))
    → a ≢ b
    → has a (addresses cells) ≡ false
    → has a (addresses (cells ++ (b, d) ∷ [])) ≡ false
has-snoc a b d [] ne h = rw (ne→eqb a b ne)
has-snoc a b d ((c, e) ∷ cells) ne h = ground (arith, has-snoc a b d cells ne)

append_after :
    (node x : ℕ) (s : Store) (list : Klist)
    → node ≢ 0
    → list.head ≢ 0
    → klist_append node x s list ≡ (
        let made = write s node (record { data_ = x; next = 0 }) in
        some (
          write made list.last (record (made.nodes list.last) { next = node }),
          record list { last = node; size = (list.size + 1) % u32_mod },
        ))
unfolding klist_append
append_after node x s list ne h = rw (ne→eqb node 0 ne, ne→eqb list.head 0 h)

-- Appending to a list that has elements, with a node that is not NULL and not a node of the list,
-- and where the size does not wrap around, gives the list with the new element at its end.
pub klist_append-IsList :
    (node x : ℕ) (s : Store) (list : Klist) (front : List (ℕ × ℕ)) (d : ℕ)
    → IsList s list front d
    → node ≢ 0
    → node ≢ list.last
    → has node (addresses front) ≡ false
    → list.size + 1 < u32_mod
    → (s' : Store) × (list' : Klist) × (klist_append node x s list ≡ some (s', list'))
      × IsList s' list' (front ++ (list.last, d) ∷ []) x
klist_append-IsList node x s list front d (g, h, e, n, z, f) ne other fresh room =
    let new : KlistNode = record { data_ = x; next = 0 } in
    let made : Store = write s node new in
    let old : KlistNode = record (made.nodes list.last) { next = node } in
    let s' : Store = write made list.last old in
    let last_apart : (list.last == node) ≡ false = ne→eqb list.last node (λ o. other (sym o)) in
    (
      s',
      record list { last = node; size = (list.size + 1) % u32_mod },
      append_after node x s list ne h,
      (
        Seg-snoc s' list.head front list.last d node
            (Seg-write made list.head front list.last list.last old f
              (Seg-write s list.head front list.last node new fresh g))
            (ap (λ m. m.data_) (write_self made list.last old)
              ∙ ap (λ m. m.data_) (write_ne s node list.last new last_apart)
              ∙ e)
            (ap (λ m. m.next) (write_self made list.last old)),
        h,
        ap (λ m. m.data_)
            (write_ne made list.last node old (ne→eqb node list.last other)
              ∙ write_self s node new),
        ap (λ m. m.next)
            (write_ne made list.last node old (ne→eqb node list.last other)
              ∙ write_self s node new),
        omega (arith, length-append {0} front ((list.last, d) ∷ [])),
        has-snoc node list.last d front other fresh,
      ),
    )

-- Popping the only element of a list gives its data, gives its node back, and leaves no node in
-- the list, but leaves the size at 1.
klist_pop-one :
    (fuel : ℕ) (s : Store) (list : Klist) (d : ℕ)
    → IsList s list [] d
    → ((klist_pop fuel s list).0 ≡ d)
      × ((klist_pop fuel s list).1 ≡ free list.head s)
      × ((klist_pop fuel s list).2 ≡ record { head = 0; last = 0; size = 1; flags = list.flags })
unfolding klist_pop
klist_pop-one fuel s list d (g, h, e, n, z, f) =
    let one : (list.size == 1) ≡ true = ground arith in
    (
      rw one (ap (λ m. (s.nodes m).data_) g ∙ e),
      rw one,
      rw one (ap (λ q. record { head = 0; last = 0; size = q; flags = list.flags }) z),
    )
