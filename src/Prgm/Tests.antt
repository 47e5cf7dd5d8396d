-- ===== src/Prgm/Tests.antt =====
-- Runs of the programs at concrete inputs, and their theorems there.
use frosk_current.Prelude.{
  ℕ, ◌≤◌, ◌<◌, some, ◌≡◌, ◌+◌, ◌*◌, ◌↔◌, true, false, refl, List, [], ◌∷◌, ◌++◌, ◌==◌,
  if◌then◌else◌, arith,
}
use frosk_current.Prelude.Memory.{Memory, memory_of}
use frosk_current.Prgm.Number.{number_to_string}
use frosk_current.Prgm.Number.Places.{HasLength, IsNumber, number_to_string-IsNumber}
use frosk_current.Cstd.Ctype.{islower, toupper}
use frosk_current.Kernel.Keyboard.{Keyboard}
use frosk_current.Prgm.Screen.{Screen, Window, create_window, fc_wputs}
use frosk_current.Prgm.Screen.Cells.{IsSized, cell}
use frosk_current.Prgm.Screen.Scroll.{IsOn}
use frosk_current.Prgm.Screen.Terminal.{Terminal, IsView}
use frosk_current.Prgm.Screen.Typed.{type_string, IsTyped, fc_wputs-IsTyped}
use frosk_current.Prgm.Keys.{Shell, KeyState, key_char, box_screen, lshift_code, rshift_code}
use frosk_current.Prgm.Keys.Letters.{key_char-shift}
use frosk_current.Prgm.Keys.Typed.{type_keys}
use frosk_current.Prgm.Keys.Shift.{is_down, chars_of, type_keys-sent}
use frosk_current.Prgm.Keys.Frame.{frame_char, byte_of, box_screen-cell}

abbrev small : Screen
small = record {
  width = 4;
  height = 3;
  buf_size = 24;
  cells = λ q. q;
  file_size = 24;
  cursor = (0, 0);
}

small-IsSized : IsSized small 4 3
small-IsSized = record { wide = refl; high = refl; whole = refl; file = refl; small = omega arith }

-- two columns and two lines
abbrev win : Window
win = create_window small 1 1 2 2

win-IsOn : IsOn win 4 3
win-IsOn = record {
  sized = small-IsSized;
  right = omega arith;
  bottom = omega arith;
  wide = omega arith;
  few = omega arith;
  high = omega arith;
}

abbrev shown : Terminal
shown = record { text = λ i j b. (1 + i + (1 + j) * 4) * 2 + b; col = 0; line = 0 }

win-IsView : IsView 4 3 win shown
win-IsView = record { on = win-IsOn; col = refl; line = refl; text = λ i j b hi hj hb. refl }

-- "AB", a new line, "C", a step back and "DEF"
abbrev typed_text : List ℕ
typed_text = b'A' ∷ b'B' ∷ 10 ∷ b'C' ∷ 8 ∷ b'D' ∷ b'E' ∷ b'F' ∷ []

fc_wputs-IsTyped_example :
    IsTyped 4 3 win (type_string 2 2 shown typed_text 7) (fc_wputs 9 win (memory_of typed_text) 0 7)
fc_wputs-IsTyped_example =
    fc_wputs-IsTyped 4 3 9 win shown (memory_of typed_text) 0 typed_text 7 win-IsView
      (omega arith, omega arith)
      (
        refl,
        omega arith,
        omega arith,
        (
          refl,
          omega arith,
          omega arith,
          (
            refl,
            omega arith,
            omega arith,
            (
              refl,
              omega arith,
              omega arith,
              (
                refl,
                omega arith,
                omega arith,
                (
                  refl,
                  omega arith,
                  omega arith,
                  (refl, omega arith, omega arith, (refl, omega arith, omega arith, refl)),
                ),
              ),
            ),
          ),
        ),
      )
      (omega arith)

box_screen-cell_example :
    cell 4 (box_screen small 11) 3 2 1
    ≡ (if frame_char 4 3 3 2 == 0 then cell 4 small 3 2 1 else byte_of (frame_char 4 3 3 2) 11 1)
box_screen-cell_example =
    box_screen-cell 4 3 small 11 3 2 1 small-IsSized (omega arith) (omega arith) (omega arith)
      (omega arith) (omega arith)

-- no shift key is down
abbrev no_keys : KeyState
no_keys = record { lshift = false; rshift = false }

abbrev shell : Shell
shell = record { win = win; keys = no_keys; sent = [] }

-- the left shift key, A, its release and A
abbrev codes : List ℕ
codes = 30 ∷ 0xAA ∷ 30 ∷ 0x2A ∷ []

abbrev keyboard : Keyboard
keyboard = record {
  buffer = λ q. if q == 0 then 0x2A else if q == 1 then 30 else if q == 2 then 0xAA else 30;
  end = 4;
  size = 4;
  locked = false;
  delayed = [];
}

type_keys-sent_example :
    ((type_keys codes shell).keys.lshift ≡ is_down lshift_code codes false)
    × ((type_keys codes shell).keys.rshift ≡ is_down rshift_code codes false)
    × ((type_keys codes shell).sent ≡ [] ++ chars_of codes no_keys)
type_keys-sent_example = type_keys-sent codes shell

key_char-shift_example :
    ((key_char (record { lshift = true; rshift = false }) 30 ≡ 0) ↔ (key_char no_keys 30 ≡ 0))
    × (islower (key_char no_keys 30) ≡ true
        → key_char (record { lshift = true; rshift = false }) 30 ≡ toupper (key_char no_keys 30))
key_char-shift_example = key_char-shift 30 true false refl

number_to_string-IsNumber_example :
    (len : ℕ) × HasLength 16 0x2C7 len
    × (5 ≤ len
        → number_to_string 9 (λ _. 3) 0x2C7 40 5 16 ≡ some (λ _. 3, if 0x2C7 == 0 then 2 else len))
    × (len < 5
        → (m' : Memory) × (number_to_string 9 (λ _. 3) 0x2C7 40 5 16 ≡ some (m', 0))
          × IsNumber (λ _. 3) m' 0x2C7 40 5 16 len)
number_to_string-IsNumber_example =
    number_to_string-IsNumber 9 8 (λ _. 3) 0x2C7 40 5 16 (omega arith) (omega arith) (omega arith)
      (omega arith)
