-- ===== src/Kernel/Keyboard/Stack.antt =====
-- The key buffer is a stack: the newest byte is read first.
use frosk_current.Prelude.{
  ℕ, suc, ◌+◌, ◌-◌, ◌%◌, ◌≤◌, ◌<◌, ◌≡◌, ◌⊎◌, inl, inr, false, some, List, [], ◌∷◌, ◌++◌, ◌==◌, ltb,
  if◌then◌else◌, arith, refl, ap, ◌∙◌, sym, length, length-append,
}
use mathlib.Core.Path.{subst}
use frosk_current.Prelude.Words.{sub64}
use frosk_current.Prelude.Memory.{Memory, poke}
use frosk_current.Kernel.Keyboard.{Keyboard, kb_buffer_size, kb_put, read_loop, kb_fs_read}

-- The buffer has the bytes of the list, the last one first in the list and furthest in the buffer.
abbrev pub Holds : (ℕ → ℕ) → List ℕ → Type 0
Holds buffer [] = Unit
Holds buffer (x ∷ xs) = (buffer (length xs) ≡ x) × Holds buffer xs

-- The unread bytes, newest first. Before the first byte the end is that of the buffer.
pub record IsStack (s : Keyboard) (xs : List ℕ) : Type 0 where
  pub few : length xs ≤ kb_buffer_size
  pub sized : s.size ≡ length xs
  pub ends : (s.end ≡ length xs) ⊎ ((s.end ≡ kb_buffer_size) × (length xs ≡ 0))
  pub holds : Holds s.buffer xs

Holds-poke :
    (buffer : ℕ → ℕ) (xs : List ℕ) (at sc : ℕ)
    → length xs ≤ at
    → Holds buffer xs
    → Holds (poke buffer at sc) xs
Holds-poke buffer [] at sc above holds = tt
Holds-poke buffer (x ∷ xs) at sc above (here, holds) =
    (ground (arith, here), Holds-poke buffer xs at sc (omega arith) holds)

poke-at : (buffer : ℕ → ℕ) (at sc q : ℕ) → at ≡ q → poke buffer at sc q ≡ sc
poke-at buffer at sc q e = ground arith

poke-other : (m : Memory) (at v q : ℕ) → q < at → poke m at v q ≡ m q
poke-other m at v q h = ground arith

still :
    (ys zs : List ℕ) (s' s1 : Keyboard)
    → s1.end ≡ length (ys ++ zs)
    → (s'.end ≡ length zs) ⊎ ((length ys ≡ 0) × (s'.end ≡ s1.end))
    → s'.end ≡ length zs
still ys zs s' s1 top ends = elim ends [
  | inl e ↦ e
  | inr (nothing, e) ↦ omega (arith, e, top, nothing, length-append ys zs)
]

-- A byte that is put while the lock is free and fewer than 1024 bytes are unread is the newest one.
pub kb_put-IsStack :
    (s : Keyboard) (xs : List ℕ) (sc : ℕ)
    → IsStack s xs
    → s.locked ≡ false
    → length xs < kb_buffer_size
    → IsStack (kb_put s sc) (sc ∷ xs)
unfolding kb_put
kb_put-IsStack s xs sc stack free space =
    let head : s.end % kb_buffer_size ≡ length xs = elim stack.ends [
      | inl e ↦ omega (arith, e, space)
      | inr (e, nothing) ↦ omega (arith, e, nothing)
    ] in
    rw free (record {
      few = omega arith;
      sized = omega (arith, stack.sized, space);
      ends = inl (omega (arith, head));
      holds = (
        poke-at s.buffer (s.end % kb_buffer_size) sc (length xs) head,
        Holds-poke s.buffer xs (s.end % kb_buffer_size) sc (omega (arith, head)) stack.holds,
      );
    })

-- the bytes of the list in memory, from `to` on
abbrev pub Arrived : Memory → ℕ → List ℕ → Type 0
Arrived m to [] = Unit
Arrived m to (y ∷ ys) = (m to ≡ y) × Arrived m (to + 1) ys

read_loop-Arrived :
    (ys zs : List ℕ) (s : Keyboard) (m : Memory) (to : ℕ)
    → Holds s.buffer (ys ++ zs)
    → (s.end ≡ length (ys ++ zs)) ⊎ (length ys ≡ 0)
    → (m' : Memory) × (s' : Keyboard) × (read_loop (length ys) s m to ≡ some (s', m'))
      × ((s'.end ≡ length zs) ⊎ ((length ys ≡ 0) × (s'.end ≡ s.end)))
      × (s'.buffer ≡ s.buffer)
      × Arrived m' to ys
      × ((q : ℕ) → q < to → m' q ≡ m q)
unfolding read_loop
read_loop-Arrived [] zs s m to holds ends = (m, s, refl, inr (refl, refl), refl, tt, λ q h. refl)
read_loop-Arrived (y ∷ ys) zs s m to (here, holds) ends =
    let e : s.end ≡ suc (length (ys ++ zs)) = elim ends [
      | inl e ↦ e
      | inr none_left ↦ absurd (omega (arith, none_left))
    ] in
    let s1 : Keyboard = record s { end = s.end - 1 } in
    let m1 = poke m to (s.buffer (s.end - 1)) in
    let more : (s.end == 0) ≡ false = ground (arith, e) in
    let top : s.end - 1 ≡ length (ys ++ zs) = omega (arith, e) in
    let (m', s', run, ends', same, arrived, frame) =
      read_loop-Arrived ys zs s1 m1 (to + 1) holds (inl top) in
    (
      m',
      s',
      rw more run,
      inl (still ys zs s' s1 top ends'),
      same,
      (
        frame to (omega arith)
            ∙ poke-at m to (s.buffer (s.end - 1)) to refl
            ∙ ap s.buffer top
            ∙ here,
        arrived,
      ),
      λ q h. frame q (omega arith) ∙ poke-other m to (s.buffer (s.end - 1)) q h,
    )

-- What a read gives: the bytes, the buffer without them, and memory unchanged below them.
pub record IsPopped (m : Memory) (to : ℕ) (ys zs : List ℕ) (s' : Keyboard) (m' : Memory)
    : Type 0 where
  pub rest : IsStack s' zs
  pub arrived : Arrived m' to ys
  pub below : (q : ℕ) → q < to → m' q ≡ m q

Holds-behind : (buffer : ℕ → ℕ) (ys zs : List ℕ) → Holds buffer (ys ++ zs) → Holds buffer zs
Holds-behind buffer [] zs holds = holds
Holds-behind buffer (y ∷ ys) zs (here, holds) = Holds-behind buffer ys zs holds

-- `kb_fs_read` takes the newest bytes off the buffer, newest first: as many as are asked for, or all
-- if there are fewer.
pub kb_fs_read-IsPopped :
    (ys zs : List ℕ) (s : Keyboard) (m : Memory) (to size : ℕ)
    → IsStack s (ys ++ zs)
    → (length ys ≡ size) ⊎ ((length zs ≡ 0) × (length ys < size))
    → (s' : Keyboard) × (m' : Memory) × (kb_fs_read s m to size ≡ some (length ys, s', m'))
      × IsPopped m to ys zs s' m'
unfolding kb_fs_read
kb_fs_read-IsPopped ys zs s m to size stack asked =
    let all = length-append ys zs in
    let number : (if ltb s.size size then s.size else size) ≡ length ys = elim asked [
      | inl e ↦ ground (arith, e, all, stack.sized)
      | inr (e, more) ↦ ground (arith, e, more, all, stack.sized)
    ] in
    let start : (s.end ≡ length (ys ++ zs)) ⊎ (length ys ≡ 0) = elim stack.ends [
      | inl e ↦ inl e
      | inr (e, none_left) ↦ inr (omega (arith, all, none_left))
    ] in
    let (m', s', run, ends, same, arrived, frame) =
      read_loop-Arrived ys zs s m to stack.holds start in
    let ended : (s'.end ≡ length zs) ⊎ ((s'.end ≡ kb_buffer_size) × (length zs ≡ 0)) = elim ends [
      | inl e ↦ inl e
      | inr (nothing, e) ↦ elim stack.ends [
        | inl e' ↦ inl (omega (arith, e, e', all, nothing))
        | inr (e', none_left) ↦ inr (e ∙ e', omega (arith, all, none_left))
      ]
    ] in
    (
      record s' { size = sub64 s.size (length ys) },
      m',
      rw number (rw run refl),
      record {
        rest = record {
          few = omega (arith, all, stack.few);
          sized = omega (arith, all, stack.sized, stack.few);
          ends = ended;
          holds = subst (λ b. Holds b zs) (sym same) (Holds-behind s.buffer ys zs stack.holds);
        };
        arrived = arrived;
        below = frame;
      },
    )
