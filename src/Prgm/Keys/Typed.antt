-- ===== src/Prgm/Keys/Typed.antt =====
-- The shell processes the keys in the order in which they were typed.
use frosk_current.Prelude.{ℕ, ◌≡◌, Option, some, List, [], ◌∷◌}
use frosk_current.Prelude.Memory.{Memory}
use frosk_current.Kernel.Keyboard.{Keyboard}
use frosk_current.Kernel.Keyboard.Stack.{IsStack}
use frosk_current.Prgm.Keys.{Shell, process_key, Input, processed}

-- the keys of the list, newest first: each one is processed after those behind it
abbrev pub type_keys : List ℕ → Shell → Shell
type_keys [] s = s
type_keys (x ∷ xs) s = process_key x (type_keys xs s)

-- the keys were processed, and the key buffer is empty
abbrev pub IsProcessed : Shell → Option Input → Type 0
IsProcessed s r =
    (kb' : Keyboard) × (m' : Memory) × (r ≡ some (processed s kb' m')) × IsStack kb' []
