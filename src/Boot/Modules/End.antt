-- ===== src/Boot/Modules/End.antt =====
-- `discover_boot_modules` of src/boot/boot_module.c finds where the last module ends.
use redshift.Base.{
  ℕ, ◌<◌, ◌≡◌, ◌∙◌, refl, List, [], ◌∷◌, length, arith, ◌==◌, max, ltb, Bool-cases, inl, inr,
  if◌then◌else◌,
}
use redshift.Libk.String.{Memory}
use redshift.Boot.Multiboot.{done, tag_type, tag_module, first_tag}
use redshift.Boot.Multiboot.Chain.{IsChain, visits, walk_tags-visits}
use redshift.Boot.Modules.{
  Modules, module_end, visit_module, discover_boot_modules, boot_modules_end,
}

-- The largest end of a module among the tags, and of `e`.
abbrev pub highest_end : Memory → List ℕ → (e : ℕ) → ℕ
highest_end mem [] e = e
highest_end mem (t ∷ ts) e =
    if tag_type mem t == tag_module
    then max (module_end mem t) (highest_end mem ts e)
    else highest_end mem ts e

-- What the body of the loop makes of the end, and of the rest.
body : Memory → ℕ → Modules → Modules
body mem t s = record s {
  end =
      if tag_type mem t == tag_module
      then (if ltb s.end (module_end mem t) then module_end mem t else s.end)
      else s.end;
}

visit-body : (mem : Memory) (t : ℕ) (s : Modules) → visit_module mem t s ≡ done (body mem t s)
unfolding visit_module body
visit-body mem t s = elim (Bool-cases (tag_type mem t == tag_module)) [
  | inr e ↦ rw e refl
  | inl e ↦ elim (Bool-cases (ltb s.end (module_end mem t))) [
    | inl l ↦ rw (e, l) refl
    | inr l ↦ rw (e, l) refl
  ]
]

highest_max :
    (mem : Memory) (ts : List ℕ) (a e : ℕ)
    → highest_end mem ts (max a e) ≡ max a (highest_end mem ts e)
highest_max mem [] a e = refl
highest_max mem (t ∷ ts) a e = ground (arith, highest_max mem ts a e)

visits-end :
    (mem : Memory) (ts : List ℕ) (s : Modules)
    → (visits (body mem) ts s).end ≡ highest_end mem ts s.end
unfolding body
visits-end mem [] s = refl
visits-end mem (t ∷ ts) s =
    visits-end mem ts (body mem t s) ∙ ground (arith, highest_max mem ts (module_end mem t) s.end)

-- Over a chain of tags that ends, with fuel for each of them, `discover_boot_modules` returns, and
-- the end that it leaves is the largest one of all modules among the tags, or the old one where that
-- is larger, wherever the modules stand among the tags.
pub discover_boot_modules-end :
    (fuel : ℕ) (mem : Memory) (mb_tags : ℕ) (ts : List ℕ) (s : Modules)
    → IsChain mem (first_tag mb_tags) ts
    → length ts < fuel
    → (after : Modules) × (discover_boot_modules fuel mem mb_tags s ≡ done after)
      × (boot_modules_end after ≡ highest_end mem ts (boot_modules_end s))
unfolding discover_boot_modules
discover_boot_modules-end fuel mem mb_tags ts s c l = (
  visits (body mem) ts s,
  walk_tags-visits fuel mem (visit_module mem) (body mem) (first_tag mb_tags) ts s (visit-body mem)
      c l,
  visits-end mem ts s,
)
