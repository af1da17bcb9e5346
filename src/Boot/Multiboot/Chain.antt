-- ===== src/Boot/Multiboot/Chain.antt =====
-- The loop over the tags of src/include/redshift/boot/multiboot2.h on a list of tags that ends.
use redshift.Base.{
  ℕ, zero, suc, ◌<◌, ◌≡◌, ◌≢◌, ◌∙◌, refl, sym, ap, true, false, List, [], ◌∷◌, length, arith, ◌==◌,
  ne→eqb,
}
use redshift.Libk.String.{Memory}
use redshift.Boot.Multiboot.{Walked, done, walk_tags, tag_type, tag_end, next_tag}

-- The tags from `tag` on stand at these addresses, and the end tag behind them.
abbrev pub IsChain : Memory → (tag : ℕ) → List ℕ → Type 0
IsChain mem tag [] = tag_type mem tag ≡ tag_end
IsChain mem tag (t ∷ ts) =
    (t ≡ tag) × (tag_type mem tag ≢ tag_end) × IsChain mem (next_tag mem tag) ts

-- The body of the loop run on one tag after the other.
abbrev pub visits : {S : Type 0} → (ℕ → S → S) → List ℕ → S → S
visits body [] s = s
visits body (t ∷ ts) s = visits body ts (body t s)

walk_ends :
    {S : Type 0} (fuel : ℕ) (mem : Memory) (visit : ℕ → S → Walked S) (tag : ℕ) (s : S)
    → (tag_type mem tag == tag_end) ≡ true
    → walk_tags (suc fuel) mem visit tag s ≡ done s
unfolding walk_tags
walk_ends fuel mem visit tag s e = rw e refl

walk_goes_on :
    {S : Type 0} (fuel : ℕ) (mem : Memory) (visit : ℕ → S → Walked S) (tag : ℕ) (s s' : S)
    → (tag_type mem tag == tag_end) ≡ false
    → visit tag s ≡ done s'
    → walk_tags (suc fuel) mem visit tag s ≡ walk_tags fuel mem visit (next_tag mem tag) s'
unfolding walk_tags
walk_goes_on fuel mem visit tag s s' e v = rw (e, v) refl

-- The loop visits every tag in order.
pub walk_tags-visits :
    {S : Type 0} (fuel : ℕ) (mem : Memory) (visit : ℕ → S → Walked S) (body : ℕ → S → S) (tag : ℕ)
    (ts : List ℕ) (s : S)
    → ((t : ℕ) (s : S) → visit t s ≡ done (body t s))
    → IsChain mem tag ts
    → length ts < fuel
    → walk_tags fuel mem visit tag s ≡ done (visits body ts s)
unfolding walk_tags
walk_tags-visits zero mem visit body tag ts s v c l = absurd (omega arith)
walk_tags-visits (suc fuel) mem visit body tag [] s v c l =
    walk_ends fuel mem visit tag s (ground (arith, c))
walk_tags-visits (suc fuel) mem visit body tag (t ∷ ts) s v (same, more, c) l =
    walk_goes_on fuel mem visit tag s (body tag s) (ne→eqb (tag_type mem tag) tag_end more)
      (v tag s)
    ∙ walk_tags-visits fuel mem visit body (next_tag mem tag) ts (body tag s) v c (omega arith)
    ∙ ap (λ k. done (visits body ts (body k s))) (sym same)
