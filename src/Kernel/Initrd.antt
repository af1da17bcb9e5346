-- ===== src/Kernel/Initrd.antt =====
-- src/kernel/initrd.c: the files of the initial ramdisk, which are those of a tar archive.
use redshift.Base.{
  ℕ, ◌+◌, ◌≡◌, ◌≢◌, refl, Bool, false, Option, none, some, List, [], ◌∷◌, ◌++◌, ◌%◌, All, ◌==◌,
  eqb_refl, ne→eqb, if◌then◌else◌, zero, suc, ◌≤◌, length, arith, ltb, Bool-cases, inl, inr, subst,
  ap, ◌∙◌,
}
use redshift.Libk.String.{kstring_hash32}
use redshift.Util.Tar.{Archive, TarFile, tar_extract, advance, tar_get_size}
use redshift.Base.Word.{u32_mod}

abbrev initrd_max_files : ℕ
initrd_max_files = 127

abbrev initrd_filename_max : ℕ
initrd_filename_max = 100

-- The files that are written over the first elements of the array.
unfoldable pub overwrite : (files array : List TarFile) → List TarFile
overwrite [] array = array
overwrite (f ∷ files) [] = []
overwrite (f ∷ files) (a ∷ array) = f ∷ overwrite files array

-- `base` is the address of the archive, and `initrd_files` the array of `initrd_max_files` elements.
unfoldable pub initrd_init :
    Archive → (base size : ℕ) → (initrd_files : List TarFile) → List TarFile
initrd_init archive base size initrd_files =
    overwrite (tar_extract initrd_max_files archive base size 0) initrd_files

-- The file and the interrupt flag; the way out from inside the loop does not restore the flag.
unfoldable pub initrd_get_file_by_name :
    (initrd_files : List TarFile) (path : List ℕ) (interrupts : Bool) → Option TarFile × Bool
initrd_get_file_by_name [] path interrupts = (none, interrupts)
initrd_get_file_by_name (f ∷ initrd_files) path interrupts =
    let rest = initrd_get_file_by_name initrd_files path interrupts in
    if f.hash == kstring_hash32 path initrd_filename_max then (some f, false) else rest

-- A file is found by its hash alone, the first one that has the hash of the path, and then interrupts
-- stay disabled.
initrd_get_file_by_name-first :
    (before after : List TarFile) (f : TarFile) (path : List ℕ) (interrupts : Bool)
    → All (λ g. g.hash ≢ kstring_hash32 path 100) before
    → f.hash ≡ kstring_hash32 path 100
    → initrd_get_file_by_name (before ++ f ∷ after) path interrupts ≡ (some f, false)
unfolding initrd_get_file_by_name
initrd_get_file_by_name-first [] after f path interrupts h e =
    rw (e, eqb_refl (kstring_hash32 path 100)) refl
initrd_get_file_by_name-first (g ∷ before) after f path interrupts (n, h) e =
    rw
      (
        ne→eqb g.hash (kstring_hash32 path 100) n,
        initrd_get_file_by_name-first before after f path interrupts h e,
      )
      refl

-- Each file that is extracted has the hash of its name.
abbrev IsHashed : TarFile → Type 0
IsHashed g = g.hash ≡ kstring_hash32 g.filename 100

tar_extract-IsHashed :
    (n : ℕ) (archive : Archive) (base size offset : ℕ)
    → All IsHashed (tar_extract n archive base size offset)
unfolding tar_extract
tar_extract-IsHashed zero archive base size offset = tt
tar_extract-IsHashed (suc n) archive base size offset =
    let rest =
      tar_extract-IsHashed n archive base size
        ((offset + advance (tar_get_size archive offset)) % u32_mod) in
    elim (Bool-cases (ltb offset size)) [
      | inr e ↦ rw (tar_extract, e) tt
      | inl e ↦ elim (Bool-cases (archive offset == 0)) [
        | inl z ↦ rw (tar_extract, e, z) tt
        | inr z ↦ rw (tar_extract, e, z) (refl, rest)
      ]
    ]

all_at :
    (P : TarFile → Type 0) (before after : List TarFile) (f : TarFile)
    → All P (before ++ f ∷ after)
    → P f
all_at P [] after f (p, ps) = p
all_at P (g ∷ before) after f (p, ps) = all_at P before after f ps

overwrite-append :
    (before after array : List TarFile) (f : TarFile)
    → length (before ++ f ∷ after) ≤ length array
    → (rest : List TarFile) × (overwrite (before ++ f ∷ after) array ≡ before ++ f ∷ rest)
unfolding overwrite
overwrite-append [] after [] f h = absurd (omega (arith, h))
overwrite-append [] after (a ∷ array) f h = (overwrite after array, refl)
overwrite-append (g ∷ before) after [] f h = absurd (omega (arith, h))
overwrite-append (g ∷ before) after (a ∷ array) f h =
    let (rest, e) = overwrite-append before after array f (omega (arith, h)) in
    (rest, ap (λ l. g ∷ l) e)

-- After the initial ramdisk is read, into an array that has room for its files, each file of the
-- archive is found by its own name where no file before it has the same hash; interrupts are then
-- disabled, whatever they were.
pub initrd_init-found :
    (archive : Archive) (base size : ℕ) (initrd_files before after : List TarFile) (f : TarFile)
    (interrupts : Bool)
    → tar_extract 127 archive base size 0 ≡ before ++ f ∷ after
    → length (before ++ f ∷ after) ≤ length initrd_files
    → All (λ g. g.hash ≢ kstring_hash32 f.filename 100) before
    → initrd_get_file_by_name (initrd_init archive base size initrd_files) f.filename interrupts
      ≡ (some f, false)
unfolding initrd_init
initrd_init-found archive base size initrd_files before after f interrupts e fit h =
    let (rest, w) = overwrite-append before after initrd_files f fit in
    let hashed =
      all_at IsHashed before after f
        (subst (All IsHashed) e (tar_extract-IsHashed 127 archive base size 0)) in
    ap (λ l. initrd_get_file_by_name (overwrite l initrd_files) f.filename interrupts) e
    ∙ ap (λ l. initrd_get_file_by_name l f.filename interrupts) w
    ∙ initrd_get_file_by_name-first before rest f f.filename interrupts h hashed
