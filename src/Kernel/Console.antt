-- ===== src/Kernel/Console.antt =====
-- src/kernel/console.c: the text screen, its cursor, and the ports that show it.
-- The screen's memory is a function from the index of a 16-bit cell, counted from the buffer, to its
-- value. `console.cursor` and `console.screen` are one record. `outs` lists the values written to
-- ports, oldest first. `inb` is what a port reads as. `none` is a copy that runs through the whole
-- memory. Each function restores the interrupt
-- flag that it saved, on its one path, so the flag is left out. The numbers are 32 bits wide.
pub mod Cursor
pub mod Screen
use Prim.Native.Nat.{bit_and, bit_or}
use redshift.Base.{
  ℕ, zero, suc, ◌+◌, ◌-◌, ◌*◌, ◌/◌, ◌%◌, Bool, not, Option, none, some, List, [], ◌∷◌, ◌++◌, leb,
  ltb, ◌==◌, if◌then◌else◌, length, ◌^◌,
}
use redshift.Base.Word.{u32_mod}
use redshift.Libk.Char.{kchar_is_printable}

-- `console_cursor_mode_t`.
pub data CursorMode : Type 0 where
  disabled : CursorMode
  underline : CursorMode
  block : CursorMode

abbrev pub Memory : Type 0
Memory = ℕ → ℕ

pub record Console : Type 0 where
  pub columns : ℕ
  pub rows : ℕ
  pub background : ℕ
  pub foreground : ℕ
  pub buffer : Memory
  pub x : ℕ
  pub y : ℕ
  pub mode : CursorMode
  pub x_origin : ℕ
  pub y_origin : ℕ
  pub outs : List (ℕ × ℕ)

abbrev pub buffer_index : Console → ℕ
buffer_index s = (s.y * s.columns + s.x) % u32_mod

abbrev pub buffer_num_cells : Console → ℕ
buffer_num_cells s = s.columns * s.rows % u32_mod

abbrev pub buffer_size : Console → ℕ
buffer_size s = 2 * buffer_num_cells s % u32_mod

abbrev pub attribute : Console → ℕ
attribute s = bit_or (s.background * 2 ^ 4) (bit_and s.foreground 0x0f)

-- What a cell holds of it: the low 16 bits.
abbrev pub char_with_attrib : Console → ℕ → ℕ
char_with_attrib s c = bit_or c (attribute s * 2 ^ 8) % 2 ^ 16

abbrev pub blank : Console → ℕ
blank s = char_with_attrib s 32

abbrev pub origin : Console → ℕ
origin s = (s.y_origin * s.columns + s.x_origin) % u32_mod

abbrev pub write : Memory → ℕ → ℕ → Memory
write mem i v j = if j == i then v else mem j

-- `kmemory_fill16` of libk/kmemory.c, by the loop of `kfill16`.
unfoldable pub kmemory_fill16 : Memory → (ptr value n : ℕ) → Memory
kmemory_fill16 mem ptr value zero = mem
kmemory_fill16 mem ptr value (suc n) = kmemory_fill16 (write mem ptr value) (suc ptr) value n

abbrev set_buffer_char : ℕ → Console → Console
set_buffer_char c s = record s { buffer = write s.buffer (buffer_index s) (char_with_attrib s c) }

-- `old` is the memory that stands at the address of the framebuffer.
unfoldable pub console_init : (old : Memory) → List (ℕ × ℕ) → Console
console_init old outs = record {
  columns = 80;
  rows = 25;
  background = 0;
  foreground = 7;
  buffer = old;
  x = 0;
  y = 0;
  mode = underline;
  x_origin = 0;
  y_origin = 0;
  outs = outs;
}

abbrev vga_cmnd : ℕ
vga_cmnd = 0x3d4

abbrev vga_data : ℕ
vga_data = 0x3d5

abbrev hide_cursor : List (ℕ × ℕ)
hide_cursor = (vga_cmnd, 0x0a) ∷ (vga_data, 0x20) ∷ []

abbrev set_cursor_shape : (inb : ℕ → ℕ) (start end : ℕ) → List (ℕ × ℕ)
set_cursor_shape inb start end =
    (vga_cmnd, 0x0a)
    ∷ (vga_data, bit_or start (bit_and (inb vga_data) 0xc0))
    ∷ (vga_cmnd, 0x0b)
    ∷ (vga_data, bit_or end (bit_and (inb 0x3e0) 0xe0))
    ∷ []

-- A port takes the low 8 bits.
abbrev pub set_cursor_position : Console → List (ℕ × ℕ)
set_cursor_position s =
    (vga_cmnd, 0x0e)
    ∷ (vga_data, buffer_index s / 2 ^ 8 % 2 ^ 8)
    ∷ (vga_cmnd, 0x0f)
    ∷ (vga_data, buffer_index s % 2 ^ 8)
    ∷ []

abbrev draw_cursor : (inb : ℕ → ℕ) → CursorMode → Console → List (ℕ × ℕ)
draw_cursor inb disabled s = hide_cursor
draw_cursor inb underline s = set_cursor_shape inb 14 15 ++ set_cursor_position s
draw_cursor inb block s = set_cursor_shape inb 0 15 ++ set_cursor_position s

unfoldable pub console_update_cursor : (inb : ℕ → ℕ) → Console → Console
console_update_cursor inb s = record s { outs = s.outs ++ draw_cursor inb s.mode s }

unfoldable pub console_set_cursor_mode : (inb : ℕ → ℕ) → CursorMode → Console → Console
console_set_cursor_mode inb mode s = console_update_cursor inb (record s { mode = mode })

unfoldable pub console_clear_line : (inb : ℕ → ℕ) → Console → Console
console_clear_line inb s = console_update_cursor inb (record s {
  buffer =
      kmemory_fill16 s.buffer (((s.y + u32_mod - 1) % u32_mod * s.columns + s.x_origin) % u32_mod)
        (blank s) ((s.columns + u32_mod - s.x_origin) % u32_mod);
  x = s.x_origin;
})

unfoldable pub console_clear : (inb : ℕ → ℕ) → Console → Console
console_clear inb s = console_update_cursor inb (record s {
  buffer =
      kmemory_fill16 s.buffer (origin s) (blank s) ((buffer_size s + u32_mod - origin s) % u32_mod);
  x = s.x_origin;
  y = s.y_origin;
})

-- `kmemory_copy` on the cells: at once done where the two addresses are the same; else it decrements
-- the size twice for each byte and so runs through the whole memory, and nothing is known of the
-- console and its variables then.
abbrev copied : Memory → (dst src : ℕ) → Option Memory
copied mem dst src = if dst == src then some mem else none

unfoldable pub console_scroll : (inb : ℕ → ℕ) → Console → Option Console
console_scroll inb s = elim (copied s.buffer (origin s) (origin s + s.columns)) [
  | none ↦ none
  | some buffer ↦
      let cleared = console_clear_line inb (record s { buffer = buffer; y = s.rows }) in
      some (console_update_cursor inb (record cleared { y = (s.rows + u32_mod - 1) % u32_mod }))
]

abbrev tab_size : ℕ
tab_size = 8

-- The `switch` of `console_write_char`.
unfoldable pub put : ℕ → Console → Console
put c s =
    if c == 8
    then record s { x = s.x - 1 }
    else if c == 10
    then record s { y = (s.y + 1) % u32_mod; x = s.x_origin }
    else if c == 13
    then record s { x = s.x_origin }
    else if c == 9
    then record s { x = bit_and ((s.x + tab_size) % u32_mod) (u32_mod - tab_size) }
    else if kchar_is_printable c
    then record (set_buffer_char c s) { x = (s.x + 1) % u32_mod }
    else s

-- Past the last column the cursor goes on to the next line.
unfoldable pub wrap : Console → Console
wrap s = if leb s.columns s.x then record s { x = s.x_origin; y = (s.y + 1) % u32_mod } else s

unfoldable pub console_write_char : (inb : ℕ → ℕ) → ℕ → Console → Option Console
console_write_char inb c s =
    let moved = wrap (put c s) in
    if leb moved.rows moved.y then console_scroll inb moved else some moved

unfoldable pub write_chars : (inb : ℕ → ℕ) → List ℕ → Console → Option Console
write_chars inb [] s = some s
write_chars inb (c ∷ string) s = elim (console_write_char inb c s) [
  | none ↦ none
  | some s' ↦ write_chars inb string s'
]

-- A string is the list of its characters, without the NUL.
unfoldable pub console_write_string : (inb : ℕ → ℕ) → List ℕ → Console → Option (ℕ × Console)
console_write_string inb string s = elim (write_chars inb string s) [
  | none ↦ none
  | some s' ↦ some (length string, console_update_cursor inb s')
]

unfoldable pub console_write_line : (inb : ℕ → ℕ) → List ℕ → Console → Option (ℕ × Console)
console_write_line inb line s = elim (console_write_string inb line s) [
  | none ↦ none
  | some (count, s') ↦ elim (console_write_char inb 10 s') [
    | none ↦ none
    | some s'' ↦ some (count + 1, s'')
  ]
]

unfoldable pub console_set_foreground_color : ℕ → Console → Console
console_set_foreground_color color s = record s { foreground = color % 2 ^ 8 }

unfoldable pub console_set_background_color : ℕ → Console → Console
console_set_background_color color s = record s { background = color % 2 ^ 8 }

unfoldable pub console_set_color : (foreground background : ℕ) → Console → Console
console_set_color foreground background s = record s {
  foreground = foreground % 2 ^ 8;
  background = background % 2 ^ 8;
}

unfoldable pub console_get_color : Console → ℕ × ℕ
console_get_color s = (s.foreground, s.background)

unfoldable pub console_set_cursor : (x y : ℕ) → Console → Console
console_set_cursor x y s = record s { x = x; y = y }

unfoldable pub console_get_cursor : Console → ℕ × ℕ
console_get_cursor s = (s.x, s.y)

unfoldable pub console_set_origin : (x y : ℕ) → Console → Console
console_set_origin x y s = record s {
  x_origin = x;
  y_origin = y;
  x = (if ltb s.x x then x else s.x);
  y = (if ltb s.y y then y else s.y);
}

unfoldable pub console_get_origin : Console → ℕ × ℕ
console_get_origin s = (s.x_origin, s.y_origin)
