-- ===== src/Prgm/Keys.antt =====
-- The shell, `prgm/start/src/start.c`: the frame around its window, the keys that it reads, shows
-- and sends on. A file of the key buffer is read by `kb_fs_read` of the kernel.
mod Tables
pub mod Frame
pub mod Shift
pub mod Typed
pub mod Letters
pub use frosk_current.Prgm.Keys.Tables.{scan_code1_to_char, scan_code1_to_char_shifted}
use frosk_current.Prelude.{
  ℕ, zero, suc, ◌+◌, ◌-◌, Bool, true, false, Option, none, some, List, [], ◌∷◌, ◌++◌, ◌==◌, ltb,
  leb, ◌||◌, if◌then◌else◌, ◌>>=◌, get_or,
}
use frosk_current.Prelude.Memory.{Memory, memory_of}
use frosk_current.Kernel.Keyboard.{Keyboard, kb_fs_read}
use frosk_current.Prgm.Screen.{Screen, Window, fc_putc, fc_wputc, fc_wputs}

-- for (i = 1; i < scr->height - 1; i++), with `k` rounds left
pub box_sides : (k i : ℕ) → Screen → (style : ℕ) → Screen
box_sides zero i scr style = scr
box_sides (suc k) i scr style =
    box_sides k (i + 1) (fc_putc (fc_putc scr 0xBA 0 i style) 0xBA (scr.width - 1) i style) style

-- for (i = 1; i < scr->width - 1; i++), with `k` rounds left
pub box_rows : (k i : ℕ) → Screen → (style : ℕ) → Screen
box_rows zero i scr style = scr
box_rows (suc k) i scr style =
    box_rows k (i + 1) (fc_putc (fc_putc scr 0xCD i 0 style) 0xCD i (scr.height - 1) style) style

-- the corners
abbrev pub box_corners : Screen → (style : ℕ) → Screen
box_corners scr style =
    let tl = fc_putc scr 0xC9 0 0 style in
    let bl = fc_putc tl 0xC8 0 (scr.height - 1) style in
    let tr = fc_putc bl 0xBB (scr.width - 1) 0 style in
    fc_putc tr 0xBC (scr.width - 1) (scr.height - 1) style

pub box_screen : Screen → (style : ℕ) → Screen
box_screen scr style =
    let sides = box_sides (scr.height - 2) 1 (box_corners scr style) style in
    box_rows (scr.width - 2) 1 sides style

pub record KeyState : Type 0 where
  pub lshift : Bool
  pub rshift : Bool

-- The window, the shift keys, and the one-byte messages that were sent to the child, the last one last.
pub record Shell : Type 0 where
  pub win : Window
  pub keys : KeyState
  pub sent : List ℕ

abbrev pub release : ℕ
release = 0x80

abbrev pub lshift_code : ℕ
lshift_code = 0x2A

abbrev pub rshift_code : ℕ
rshift_code = 0x36

-- the assignments to `lshift` and `rshift`
pub next_keys : (scancode : ℕ) → KeyState → KeyState
next_keys scancode keys =
    if leb release scancode
    then record {
      lshift = if scancode == lshift_code + release then false else keys.lshift;
      rshift = if scancode == rshift_code + release then false else keys.rshift;
    }
    else record {
      lshift = if scancode == lshift_code then true else keys.lshift;
      rshift = if scancode == rshift_code then true else keys.rshift;
    }

-- The character of a key, 0 if there is none. The tables have 88 entries.
pub key_char : KeyState → (scancode : ℕ) → ℕ
key_char keys scancode =
    if ltb scancode 88
    then (if keys.lshift || keys.rshift
        then get_or scan_code1_to_char_shifted scancode 0
        else get_or scan_code1_to_char scancode 0)
    else 0

pub process_key : (scancode : ℕ) → Shell → Shell
process_key scancode s =
    let keys = next_keys scancode s.keys in
    let ch = key_char keys scancode in
    if leb release scancode
    then record s { keys = keys }
    else if ch == 0
    then record s { keys = keys }
    else record { win = fc_wputc s.win ch 14; keys = keys; sent = s.sent ++ (ch ∷ []) }

-- for (i = size - 1; i >= 0; i--), with `k` bytes left
pub process_bytes : (k : ℕ) → Memory → (buf : ℕ) → Shell → Shell
process_bytes zero m buf s = s
process_bytes (suc k) m buf s = process_bytes k m buf (process_key (m (buf + k)) s)

-- What the input part of the loop of `main` does: it stops the shell, or goes on with what was read.
pub data Input : Type 0 where
  too_much : Shell → Input
  processed : Shell → Keyboard → Memory → Input

-- "\nToo much input!\n"
abbrev pub too_much_text : List ℕ
too_much_text =
    10 ∷ b'T' ∷ b'o' ∷ b'o' ∷ b' ' ∷ b'm' ∷ b'u' ∷ b'c' ∷ b'h' ∷ b' ' ∷ b'i' ∷ b'n' ∷ b'p' ∷ b'u'
    ∷ b't' ∷ b'!' ∷ 10 ∷ []

-- the text in the window
abbrev pub refuse_input : Shell → Option Input
refuse_input s = fc_wputs 18 s.win (memory_of too_much_text) 0 15 >>= λ win.
    some (too_much (record s { win = win }))

abbrev pub process_input : Shell → Keyboard → Memory → (buf : ℕ) → Option Input
process_input s kb m buf = kb_fs_read kb m buf kb.size >>= λ r.
    some (processed (process_bytes kb.size (r.2) buf s) (r.1) (r.2))

-- `buf` is the address of the 128 bytes; `none` is a read in front of the key
-- buffer. No key arrives between `fs_size` and `fs_read`.
pub read_keys : Shell → Keyboard → Memory → (buf : ℕ) → Option Input
read_keys s kb m buf =
    if kb.size == 0
    then some (processed s kb m)
    else if ltb 128 (kb.size + 1)
    then refuse_input s
    else process_input s kb m buf
