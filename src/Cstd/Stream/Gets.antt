-- ===== src/Cstd/Stream/Gets.antt =====
-- `fgets` of `lib/cstd/src/stdio.c`: how it makes a line of the characters of messages.
pub mod Edited
pub mod Line
pub mod Whole
use frosk_current.Prelude.{
  ℕ, zero, suc, ◌+◌, ◌-◌, Bool, true, false, Option, none, some, List, [], ◌∷◌, ◌==◌, ltb, ◌||◌,
  if◌then◌else◌, ◌>>=◌,
}
use frosk_current.Prelude.Words.{sub64}
use frosk_current.Prelude.Memory.{Memory, poke}
use frosk_current.Cstd.Stream.{Stream, stdin, stdout, stderr, opened}

-- what the loop over the buffer ends with: the line is complete, or the buffer is used up
pub data Taken : Type 0 where
  line : Memory → Taken
  more : Memory → (buf max : ℕ) → Taken

-- The loop over the bytes of `f->buffer`.
pub take_chars : List ℕ → Memory → (buf0 buf max : ℕ) → Taken
take_chars [] m buf0 buf max = more m buf max
take_chars (c ∷ cs) m buf0 buf max =
    let m' = poke m buf c in
    elim (c == b'\n' || max == 0) [
      | true ↦ line (poke m' (buf + 1) 0)
      | false ↦ elim (c == 8) [
        | true ↦ elim (ltb buf0 buf) [
          | true ↦ take_chars cs m' buf0 (buf - 1) (max + 1)
          | false ↦ take_chars cs m' buf0 buf max
        ]
        | false ↦ take_chars cs m' buf0 (buf + 1) (max - 1)
      ]
    ]

-- `while (1)`: `rounds` are the bytes in `f->buffer` each time that the waiting messages have been received. The buffer
-- is empty after each round, as `unbuffer` takes all its bytes. `none` is a wait without end.
pub fgets_loop : (rounds : List (List ℕ)) → Memory → (buf0 buf max : ℕ) → Option Memory
unfolding take_chars
fgets_loop [] m buf0 buf max = none
fgets_loop (cs ∷ rounds) m buf0 buf max = elim (take_chars cs m buf0 buf max) [
  | line m' ↦ some m'
  | more m' buf' max' ↦ fgets_loop rounds m' buf0 buf' max'
]

-- Memory, and the pointer that is returned.
pub fgets : Stream → (rounds : List (List ℕ)) → Memory → (buf0 max : ℕ) → Option (Memory × ℕ)
unfolding fgets_loop
fgets stdin rounds m buf0 max =
    fgets_loop rounds m buf0 buf0 (sub64 max 1) >>= λ m'. some (m', buf0)
fgets stdout rounds m buf0 max = some (m, 0)
fgets stderr rounds m buf0 max = some (m, 0)
fgets (opened cursor f) rounds m buf0 max = some (m, 0)
