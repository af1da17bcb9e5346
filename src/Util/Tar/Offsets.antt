-- ===== src/Util/Tar/Offsets.antt =====
-- Where the files that src/util/tar.c finds start.
use redshift.Base.{
  ℕ, zero, suc, ◌+◌, ◌%◌, ◌≤◌, ◌≡◌, sym, subst, [], ◌∷◌, length, All, ◌==◌, ltb, inl, inr,
  Bool-cases, arith, ◌⊎◌,
}
use redshift.Base.Word.{u32_mod}
use redshift.Libk.String.{kstring_hash32}
use redshift.Util.Tar.{
  Archive, TarFile, tar_extract, advance, tar_get_size, tar_get_mode, tar_get_checksum, characters,
}

-- The file that a header at an offset stands for.
abbrev file_at : Archive → (base offset : ℕ) → TarFile
file_at archive base offset = record {
  filename = characters archive offset 100;
  start = (base + offset + 512) % u32_mod;
  hash = kstring_hash32 (characters archive offset 100) 100;
  mode = tar_get_mode archive offset;
  size = tar_get_size archive offset;
  checksum = tar_get_checksum archive offset;
}

found :
    (n : ℕ) (archive : Archive) (base size offset : ℕ)
    → (tar_extract (suc n) archive base size offset ≡ [])
      ⊎ (tar_extract (suc n) archive base size offset
          ≡ file_at archive base offset
            ∷ tar_extract n archive base size
                ((offset + advance (tar_get_size archive offset)) % u32_mod))
unfolding tar_extract
found n archive base size offset = elim (Bool-cases (ltb offset size)) [
  | inr e ↦ inl (rw e)
  | inl e ↦ elim (Bool-cases (archive offset == 0)) [
    | inl z ↦ inl (rw (e, z))
    | inr z ↦ inr (rw (e, z))
  ]
]

-- Unpacking an archive whose address and first header are at multiples of 512 finds no more files
-- than there is room for, and the data of each of them starts at a multiple of 512, whatever the
-- archive holds.
pub tar_extract-aligned :
    (max_files : ℕ) (archive : Archive) (base size offset : ℕ)
    → base % 512 ≡ 0
    → offset % 512 ≡ 0
    → (length (tar_extract max_files archive base size offset) ≤ max_files)
      × All (λ f. f.start % 512 ≡ 0) (tar_extract max_files archive base size offset)
unfolding tar_extract
tar_extract-aligned zero archive base size offset b o = (omega arith, tt)
tar_extract-aligned (suc n) archive base size offset b o = elim (found n archive base size offset) [
  | inl e ↦
      subst (λ q. (length q ≤ suc n) × All (λ f. f.start % 512 ≡ 0) q) (sym e) (omega arith, tt)
  | inr e ↦
      let next : ℕ = (offset + advance (tar_get_size archive offset)) % u32_mod in
      let (few, rest) = tar_extract-aligned n archive base size next b (ground arith) in
      subst (λ q. (length q ≤ suc n) × All (λ f. f.start % 512 ≡ 0) q) (sym e)
        (omega (arith, few), (omega arith, rest))
]
