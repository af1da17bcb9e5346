-- ===== src/Examples/Devices.antt =====
-- The theorems on src/kernel and src/util at small states.
use redshift.Base.{
  ℕ, zero, suc, ◌*◌, ◌%◌, ◌≤◌, ◌<◌, ◌≡◌, refl, true, false, some, [], ◌∷◌, length, All, ◌==◌,
  if◌then◌else◌, List, arith,
}
use redshift.Kernel.Console.{Console, underline, blank, console_clear, console_write_line}
use redshift.Kernel.Console.Cursor.{IsOnScreen, SameShape, console_write_line-IsOnScreen}
use redshift.Kernel.Console.Screen.{console_clear-overrun}
use redshift.Kernel.Interrupt.{calls, isr_handler, set_interrupt_handler}
use redshift.Kernel.Interrupt.Dispatch.{set_interrupt_handler-isr_handler}
use redshift.Kernel.Timer.{TimerEvent, Returns}
use redshift.Kernel.Initrd.{initrd_init, initrd_get_file_by_name, initrd_init-found}
use redshift.Libk.String.{hash_loop, kstring_hash32}
use redshift.Util.Tar.{Archive, TarFile, tar_extract, oct_loop, tar_oct2dec, characters}
use redshift.Util.Tar.Offsets.{tar_extract-aligned}

abbrev read_port : ℕ → ℕ
read_port port = 0

abbrev screen : Console
screen = record {
  columns = 80;
  rows = 25;
  background = 0;
  foreground = 7;
  buffer = λ i. i;
  x = 3;
  y = 20;
  mode = underline;
  x_origin = 0;
  y_origin = 0;
  outs = [];
}

screen-IsOnScreen : IsOnScreen screen
screen-IsOnScreen = (omega arith, omega arith, omega arith, omega arith, omega arith)

console_write_line-IsOnScreen_example :
    (s' : Console) × (console_write_line read_port (72 ∷ 105 ∷ []) screen ≡ some (3, s'))
    × IsOnScreen s'
    × SameShape screen s'
    × (s'.y ≤ 23)
console_write_line-IsOnScreen_example =
    console_write_line-IsOnScreen read_port (72 ∷ 105 ∷ []) screen screen-IsOnScreen (omega arith)

console_clear-overrun_example :
    (3000 < 2 * (80 * 25) → (console_clear read_port screen).buffer 3000 ≡ blank screen)
    × (2 * (80 * 25) ≤ 3000 → (console_clear read_port screen).buffer 3000 ≡ 3000)
console_clear-overrun_example =
    console_clear-overrun read_port screen 3000 (omega arith, omega arith, omega arith) refl refl

abbrev blink : TimerEvent
blink = record {
  name = [];
  name_hash = 5381;
  period = 10;
  elapsed_time = 6;
  callback = 0x1000;
  arg = 0;
}

abbrev beep : TimerEvent
beep = record blink { period = 20; callback = 0x2000 }

-- The function at 0x2000 does not come back.
abbrev first_returns : Returns
first_returns a = a == 0x1000

-- A handler for the interrupt 36.
set_interrupt_handler-isr_handler_example :
    isr_handler 36 0 (set_interrupt_handler 36 0x5000 (λ n. 0)) ≡ calls 0x5000
set_interrupt_handler-isr_handler_example =
    (set_interrupt_handler-isr_handler 36 14 0x5000 0 (λ n. 0) (omega arith) (λ e. omega arith)).1
      (omega arith)

-- One file of 5 bytes, whose header starts with an `a`.
abbrev archive : Archive
archive i = if i == 0 then 97 else if i == 134 then 53 else 48

tar_extract-aligned_example :
    (length (tar_extract 4 archive 0x10_0000 2048 0) ≤ 4)
    × All (λ f. f.start % 512 ≡ 0) (tar_extract 4 archive 0x10_0000 2048 0)
tar_extract-aligned_example = tar_extract-aligned 4 archive 0x10_0000 2048 0 refl refl

-- The same with the name `a`, and the array that it is read into.
abbrev ramdisk : Archive
ramdisk i = if i == 1 then 0 else archive i

abbrev ramdisk_file : TarFile
ramdisk_file = record {
  filename = 97 ∷ [];
  start = 0x10_0200;
  hash = 177670;
  mode = 0;
  size = 40;
  checksum = 0;
}

abbrev no_file : TarFile
no_file = record { filename = []; start = 0; hash = 0; mode = 0; size = 0; checksum = 0 }

abbrev no_files : ℕ → List TarFile
no_files zero = []
no_files (suc n) = no_file ∷ no_files n

ramdisk-extracted : tar_extract 127 ramdisk 0x10_0000 512 0 ≡ ramdisk_file ∷ []
unfolding tar_extract characters oct_loop tar_oct2dec kstring_hash32 hash_loop
ramdisk-extracted = refl

initrd_init-found_example :
    initrd_get_file_by_name (initrd_init ramdisk 0x10_0000 512 (no_files 127)) (97 ∷ []) true
    ≡ (some ramdisk_file, false)
initrd_init-found_example =
    initrd_init-found ramdisk 0x10_0000 512 (no_files 127) [] [] ramdisk_file true ramdisk-extracted
      (omega arith) tt
