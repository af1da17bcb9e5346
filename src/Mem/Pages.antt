-- ===== src/Mem/Pages.antt =====
-- `page_get` of arch/i686/mem/paging.c: the page of an address, through a directory of tables.
pub mod Faults
pub mod Lookup
use Prim.Native.Nat.{bit_or}
use redshift.Base.{ℕ, ◌/◌, ◌%◌, Bool, Option, none, some, ◌==◌, if◌then◌else◌}
use redshift.Mem.Align.{page_size}
use redshift.Mem.Frames.{Page}

abbrev pub page_entries : ℕ
page_entries = 1024

-- A page table in memory: its pages by their index.
abbrev pub Table : Type 0
Table = ℕ → Page

-- `struct page_directory`, with the tables that its pointers lead to: the memory at an address that
-- holds no table is not read.
pub record Directory : Type 0 where
  pub tables : ℕ → ℕ
  pub physical_tables : ℕ → ℕ
  pub memory : ℕ → Table

-- A pointer to a page: the table and the index in it.
abbrev pub PagePtr : Type 0
PagePtr = ℕ × ℕ

abbrev pub empty_page : Page
empty_page = record {
  present = 0;
  rw = 0;
  user = 0;
  accessed = 0;
  written = 0;
  reserved = 0;
  frame = 0;
}

abbrev pub write {ℓ} : {A : Type ℓ} → (ℕ → A) → ℕ → A → ℕ → A
write f i v j = if j == i then v else f j

-- `fresh` is the address that `static_alloc_base` would give for a new table.
unfoldable pub page_get :
    (fresh addr : ℕ) → (create : Bool) → Directory → Option PagePtr × Directory
page_get fresh addr create dir =
    let n = addr / page_size in
    let i = n / page_entries in
    if dir.tables i == 0
    then (if create
        then (
          some (fresh, n % page_entries),
          record dir {
            tables = write dir.tables i fresh;
            physical_tables = write dir.physical_tables i (bit_or fresh 0x07);
            memory = write dir.memory fresh (λ k. empty_page);
          },
        )
        else (none, dir))
    else (some (dir.tables i, n % page_entries), dir)
