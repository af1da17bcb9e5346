-- ===== src/Util/Tar.antt =====
-- src/util/tar.c: the files of an archive.
-- An archive is a function from offsets to bytes.
pub mod Offsets
use redshift.Base.{ℕ, zero, suc, ◌+◌, ◌-◌, ◌*◌, ◌/◌, ◌%◌, List, [], ◌∷◌, ltb, ◌==◌, if◌then◌else◌}
use redshift.Base.Word.{u32_mod}
use redshift.Libk.String.{char_value, kstring_hash32}

abbrev tar_header_size : ℕ
tar_header_size = 512

abbrev tar_filename_max : ℕ
tar_filename_max = 100

abbrev pub Archive : Type 0
Archive = ℕ → ℕ

-- `struct tar_file`; `filename` is what `kstring_copy` copies into the field, without the NUL.
pub record TarFile : Type 0 where
  pub filename : List ℕ
  pub start : ℕ
  pub hash : ℕ
  pub mode : ℕ
  pub size : ℕ
  pub checksum : ℕ

-- The loop from the last character down, `s` being where the field starts.
unfoldable pub oct_loop : Archive → (s j count dec : ℕ) → ℕ
oct_loop archive s zero count dec = dec
oct_loop archive s (suc j) count dec =
    oct_loop archive s j (count * 8 % u32_mod)
      ((dec + (char_value (archive (s + j)) + u32_mod - 48) * count) % u32_mod)

unfoldable pub tar_oct2dec : Archive → (s n : ℕ) → ℕ
tar_oct2dec archive s n = oct_loop archive s n 1 0

-- The fields of a header by their offsets.
abbrev pub tar_get_mode : Archive → (header : ℕ) → ℕ
tar_get_mode archive header = tar_oct2dec archive (header + 100) 8

abbrev pub tar_get_size : Archive → (header : ℕ) → ℕ
tar_get_size archive header = tar_oct2dec archive (header + 124) 12

abbrev pub tar_get_checksum : Archive → (header : ℕ) → ℕ
tar_get_checksum archive header = tar_oct2dec archive (header + 148) 8

-- The first characters from an offset, at most `n`, up to a NUL.
unfoldable pub characters : Archive → (offset n : ℕ) → List ℕ
characters archive offset zero = []
characters archive offset (suc n) =
    let rest = characters archive (suc offset) n in
    if archive offset == 0 then [] else archive offset ∷ rest

-- How far the next header is.
abbrev pub advance : (size : ℕ) → ℕ
advance size =
    (size / tar_header_size + 1) * tar_header_size
    + (if size % tar_header_size == 0 then 0 else tar_header_size)

-- `base` is the address of the archive. The files found, at most `max_files`.
unfoldable pub tar_extract : (max_files : ℕ) → Archive → (base size offset : ℕ) → List TarFile
tar_extract zero archive base size offset = []
tar_extract (suc max_files) archive base size offset =
    let filename = characters archive offset tar_filename_max in
    let length = tar_get_size archive offset in
    let rest = tar_extract max_files archive base size ((offset + advance length) % u32_mod) in
    if ltb offset size
    then (if archive offset == 0
        then []
        else (record {
          filename = filename;
          start = (base + offset + tar_header_size) % u32_mod;
          hash = kstring_hash32 filename tar_filename_max;
          mode = tar_get_mode archive offset;
          size = length;
          checksum = tar_get_checksum archive offset;
        }
            ∷ rest))
    else []
