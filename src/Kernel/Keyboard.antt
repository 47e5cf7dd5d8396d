-- ===== src/Kernel/Keyboard.antt =====
-- The key buffer of `kernel/src/dev/ps2.c`.
pub mod Stack
use mathlib.Core.Option
use frosk_current.Prelude.{
  ℕ, zero, suc, ◌+◌, ◌-◌, ◌%◌, ◌^◌, Bool, true, false, Option, none, some, List, [], ◌∷◌, ◌++◌,
  ◌==◌, ltb, if◌then◌else◌,
}
use frosk_current.Prelude.Words.{add64, sub64}
use frosk_current.Prelude.Memory.{Memory, poke}

abbrev pub kb_buffer_size : ℕ
kb_buffer_size = 1024

-- `end` is `kb_buffer_head + 1`, since `kb_buffer_head` can be -1; `size` and `locked` are fields of
-- `kb_buffer_file`, and `delayed` is the list from `first` on.
pub record Keyboard : Type 0 where
  pub buffer : ℕ → ℕ
  pub end : ℕ
  pub size : ℕ
  pub locked : Bool
  pub delayed : List ℕ

pub kb_put_actual : Keyboard → ℕ → Bool × Keyboard
kb_put_actual s sc =
    let head = s.end % kb_buffer_size in
    if s.locked
    then (false, s)
    else (true, record s { buffer = poke s.buffer head sc; end = head + 1; size = add64 s.size 1 })

pub kb_put : Keyboard → ℕ → Keyboard
unfolding kb_put_actual
kb_put s sc =
    let r = kb_put_actual s sc in if r.0 then r.1 else record s { delayed = s.delayed ++ (sc ∷ []) }

-- One round of the process that puts the delayed bytes: nothing, if there are none or if the lock is
-- taken.
pub kb_put_delayed : Keyboard → Keyboard
unfolding kb_put_actual
kb_put_delayed s = elim s.delayed [
  | [] ↦ s
  | sc ∷ rest ↦ let r = kb_put_actual s sc in if r.0 then record (r.1) { delayed = rest } else s
]

-- The loop of `kb_fs_read`, for `k` bytes; `none` is a read in front of the buffer.
pub read_loop : (k : ℕ) → Keyboard → Memory → (to : ℕ) → Option (Keyboard × Memory)
read_loop zero s m to = some (s, m)
read_loop (suc k) s m to =
    let head = s.end - 1 in
    let rest = read_loop k (record s { end = head }) (poke m to (s.buffer head)) (to + 1) in
    if s.end == 0 then none else rest

pub kb_fs_read : Keyboard → Memory → (to size : ℕ) → Option (ℕ × Keyboard × Memory)
unfolding read_loop
kb_fs_read s m to size =
    let size' = if ltb s.size size then s.size else size in
    Option.map (λ r. (size', record (r.0) { size = sub64 s.size size' }, r.1))
      (read_loop size' s m to)
