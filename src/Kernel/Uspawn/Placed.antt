-- ===== src/Kernel/Uspawn/Placed.antt =====
-- The program that `uspawn` leaves in memory, and its first thread.
use mathlib.Core.Path.{subst}
use frosk_current.Prelude.{
  ℕ, ◌+◌, ◌-◌, ◌*◌, ◌%◌, ◌^◌, ◌<◌, ◌≤◌, ◌≡◌, ◌⊎◌, inl, inr, true, false, some, List, [], ◌∷◌, ◌==◌,
  arith, refl, sym, ap, ◌∙◌, length,
}
use frosk_current.Prelude.Memory.{Memory}
use frosk_current.Prelude.Words.{add64, mul64}
use frosk_current.Kernel.Region.{page_size, allocate, shift_rgn}
use frosk_current.Kernel.Scheduler.{Scheduler, create_process, add_process, link_process, schedule}
use frosk_current.Kernel.Scheduler.Ring.{IsRing, IsOutside, IsRing-pointwise}
use frosk_current.Kernel.Scheduler.Linked.{
  next_thread, IsScheduled, schedule-IsScheduled, add_process-create_process, link_process-threads,
}
use frosk_current.Kernel.Uspawn.{
  uspace_bot, align_pointer, program_size, put_code, args_begin, put_program, put_args, uspawn,
}
use frosk_current.Kernel.Uspawn.Args.{
  Argument, addresses, bytes_of, AreArguments, AreArguments-frame, AreCopied, add_lengths-bytes,
  put_args-AreCopied, length-addresses,
}
use frosk_current.Kernel.Uspawn.Image.{
  IsElsewhere, put_code-code, put_code-zeros, put_code-preamble, put_code-outside,
}

-- the bytes of the whole program
abbrev pub total_size : (csz bsz psz : ℕ) → List Argument → ℕ
total_size csz bsz psz xs = align_pointer (csz + bsz + psz) + 8 * length xs + bytes_of xs

-- Code and data, zeros, the preamble, and pointers to the arguments from a multiple of 8 bytes on; nothing else is written.
pub record IsProgram (m m' : Memory) (tvirt image csz bsz pre psz : ℕ) (xs : List Argument)
    : Type 0 where
  pub code : (n : ℕ) → n < csz → m' (tvirt + n) ≡ m (image + n)
  pub zeros : (n : ℕ) → n < bsz → m' (tvirt + csz + n) ≡ 0
  pub preamble : (n : ℕ) → n < psz → m' (tvirt + csz + bsz + n) ≡ m (pre + n)
  pub args : AreCopied m' tvirt (tvirt + align_pointer (csz + bsz + psz)) xs
  pub outside : (q : ℕ) → (q < tvirt) ⊎ (tvirt + total_size csz bsz psz xs ≤ q) → m' q ≡ m q

put_program-put_args :
    (f : ℕ) (m : Memory) (tvirt image csz bsz pre psz : ℕ) (xs : List Argument)
    → tvirt % 8 ≡ 0
    → put_program f m tvirt image csz bsz pre psz (addresses xs)
      ≡ put_args f
          (put_code m tvirt image csz bsz pre psz)
          tvirt
          (tvirt + align_pointer (csz + bsz + psz))
          (tvirt + align_pointer (csz + bsz + psz) + 8 * length xs)
          (addresses xs)
unfolding put_program
put_program-put_args f m tvirt image csz bsz pre psz xs aligned =
    let begin : args_begin tvirt csz bsz psz ≡ tvirt + align_pointer (csz + bsz + psz) =
      ground arith in
    let first : tvirt + align_pointer (csz + bsz + psz) + length (addresses xs) * 8
        ≡ tvirt + align_pointer (csz + bsz + psz) + 8 * length xs =
      ap (λ k. tvirt + align_pointer (csz + bsz + psz) + k * 8) (length-addresses xs)
      ∙ omega arith in
    rw (begin, first) refl

put_program-IsProgram :
    (f : ℕ) (m : Memory) (tvirt image csz bsz pre psz : ℕ) (xs : List Argument)
    → tvirt % 8 ≡ 0
    → tvirt + total_size csz bsz psz xs + uspace_bot < 2 ^ 64
    → IsElsewhere tvirt (tvirt + total_size csz bsz psz xs) image csz
    → IsElsewhere tvirt (tvirt + total_size csz bsz psz xs) pre psz
    → AreArguments f m tvirt (tvirt + total_size csz bsz psz xs) xs
    → (m' : Memory) × (put_program f m tvirt image csz bsz pre psz (addresses xs)
        ≡ some (m', tvirt + total_size csz bsz psz xs))
      × IsProgram m m' tvirt image csz bsz pre psz xs
put_program-IsProgram f m tvirt image csz bsz pre psz xs aligned small image_out pre_out args =
    let before = align_pointer (csz + bsz + psz) in
    let grown : csz + bsz + psz ≤ align_pointer (csz + bsz + psz) = ground arith in
    let image_far : IsElsewhere tvirt (tvirt + csz + bsz + psz) image csz = elim image_out [
      | inl h ↦ inl h
      | inr h ↦ inr (omega arith)
    ] in
    let pre_far : IsElsewhere tvirt (tvirt + csz + bsz + psz) pre psz = elim pre_out [
      | inl h ↦ inl h
      | inr h ↦ inr (omega arith)
    ] in
    let m1 = put_code m tvirt image csz bsz pre psz in
    let same1 = put_code-outside m tvirt image csz bsz pre psz image_far pre_far in
    let args1 =
      AreArguments-frame f m m1 tvirt (tvirt + total_size csz bsz psz xs) xs
        (λ q far. same1 q (elim far [ inl h ↦ inl h | inr h ↦ inr (omega arith) ])) args in
    let (m', run, copied, frame) =
      put_args-AreCopied f m1 tvirt (tvirt + total_size csz bsz psz xs) tvirt (tvirt + before)
        (tvirt + before + 8 * length xs) xs args1 (omega arith) (omega arith) (omega arith)
        (omega arith) small in
    let end : tvirt + before + 8 * length xs + bytes_of xs ≡ tvirt + total_size csz bsz psz xs =
      omega arith in
    (
      m',
      put_program-put_args f m tvirt image csz bsz pre psz xs aligned
          ∙ run
          ∙ ap (λ k. some (m', k)) end,
      record {
        code = λ n lt.
            frame (tvirt + n) (inl (omega arith))
            ∙ put_code-code m tvirt image csz bsz pre psz image_far pre_far n lt;
        zeros = λ n lt.
            frame (tvirt + csz + n) (inl (omega arith))
            ∙ put_code-zeros m tvirt image csz bsz pre psz image_far pre_far n lt;
        preamble = λ n lt.
            frame (tvirt + csz + bsz + n) (inl (omega arith))
            ∙ put_code-preamble m tvirt image csz bsz pre psz image_far pre_far n lt;
        args = copied;
        outside = λ q out. elim out [
          | inl h ↦ frame q (inl (omega arith)) ∙ same1 q (inl h)
          | inr h ↦ frame q (inr (inr (omega arith))) ∙ same1 q (inr (omega arith))
        ];
      },
    )

program_size-total :
    (f : ℕ) (m : Memory) (lo hi csz bsz psz : ℕ) (xs : List Argument)
    → AreArguments f m lo hi xs
    → total_size csz bsz psz xs < 2 ^ 64
    → program_size f m csz bsz psz (addresses xs) ≡ some (total_size csz bsz psz xs)
unfolding program_size
program_size-total f m lo hi csz bsz psz xs args small =
    let grown : csz + bsz + psz ≤ align_pointer (csz + bsz + psz) = ground arith in
    let sum : add64 (add64 csz bsz) psz ≡ csz + bsz + psz = omega arith in
    let pointers : add64 (align_pointer (csz + bsz + psz)) (mul64 (length (addresses xs)) 8)
        ≡ align_pointer (csz + bsz + psz) + 8 * length xs =
      ap (λ k. add64 (align_pointer (csz + bsz + psz)) (mul64 k 8)) (length-addresses xs)
      ∙ omega arith in
    rw (sum, pointers)
      (add_lengths-bytes f m lo hi (align_pointer (csz + bsz + psz) + 8 * length xs) xs args small)

-- `uspawn` after what its calls return
uspawn-calls :
    (f : ℕ) (s s1 : Scheduler) (m m' w : Memory) (image csz bsz entry pre psz : ℕ) (argv : List ℕ)
    (p t tvirt tstack phys flags size : ℕ) (q : Scheduler × Memory)
    → program_size f m csz bsz psz argv ≡ some size
    → put_program f m tvirt image csz bsz pre psz argv ≡ some (m', tvirt + size)
    → add_process (create_process s p) p ≡ some s1
    → schedule s1 w p
        (csz + bsz + uspace_bot)
        (entry ∷ (args_begin tvirt csz bsz psz - tvirt + uspace_bot) ∷ length argv ∷ [])
        false
        t
        tstack
        flags
      ≡ some q
    → uspawn f s m w image csz bsz entry pre psz argv p t tvirt tstack phys flags
      ≡ some (q.0, m', q.1, shift_rgn (allocate tvirt size true phys) uspace_bot)
unfolding uspawn
uspawn-calls f s s1 m m' w image csz bsz entry pre psz argv p t tvirt tstack phys flags size q sized
      placed added scheduled =
    let same : (tvirt + size - tvirt == size) ≡ true = ground arith in
    rw (sized, placed, same, added, scheduled) refl

-- the words on the stack
stack_words :
    (tvirt csz bsz psz entry : ℕ) (xs : List Argument)
    → tvirt % 8 ≡ 0
    → (entry ∷ (args_begin tvirt csz bsz psz - tvirt + uspace_bot) ∷ length (addresses xs) ∷ [])
      ≡ (entry ∷ (align_pointer (csz + bsz + psz) + uspace_bot) ∷ length xs ∷ [])
stack_words tvirt csz bsz psz entry xs aligned =
    let begin : args_begin tvirt csz bsz psz - tvirt ≡ align_pointer (csz + bsz + psz) =
      ground arith in
    rw (begin, length-addresses xs) refl

-- With the lock free, the temporary pages at a multiple of 8 bytes and apart from the sources, arguments that are strings and
-- fuel for them, `uspawn` returns: its assertion holds. It leaves the program in the pages, whose region then begins where
-- programs begin, and a first thread that starts at the preamble, with the entry, the place of the pointers to the arguments
-- and their number on its stack.
pub uspawn-IsProgram :
    (f : ℕ) (s : Scheduler) (m w : Memory) (image csz bsz entry pre psz : ℕ) (xs : List Argument)
    (p t tvirt tstack phys flags : ℕ) (ts : List ℕ)
    → s.locked ≡ false
    → IsRing (next_thread s) s.head_thrd ts
    → IsOutside t ts
    → 0 < t
    → tvirt % 8 ≡ 0
    → tvirt + total_size csz bsz psz xs + uspace_bot < 2 ^ 64
    → IsElsewhere tvirt (tvirt + total_size csz bsz psz xs) image csz
    → IsElsewhere tvirt (tvirt + total_size csz bsz psz xs) pre psz
    → AreArguments f m tvirt (tvirt + total_size csz bsz psz xs) xs
    → (s' : Scheduler) × (m' : Memory) × (w' : Memory) × (uspawn f s m w image csz bsz entry pre psz
          (addresses xs)
          p
          t
          tvirt
          tstack
          phys
          flags
        ≡ some (
          s',
          m',
          w',
          shift_rgn (allocate tvirt (total_size csz bsz psz xs) true phys) uspace_bot,
        ))
      × IsProgram m m' tvirt image csz bsz pre psz xs
      × IsScheduled
          (link_process (create_process s p) p)
          s'
          p
          (csz + bsz + uspace_bot)
          (entry ∷ (align_pointer (csz + bsz + psz) + uspace_bot) ∷ length xs ∷ [])
          false
          t
          ts
          (tstack + page_size)
          flags
          w'
uspawn-IsProgram f s m w image csz bsz entry pre psz xs p t tvirt tstack phys flags ts free ring out
      real aligned small image_out pre_out args =
    let s1 = link_process (create_process s p) p in
    let start = csz + bsz + uspace_bot in
    let (threads, head, locked) = link_process-threads s p in
    let sized =
      program_size-total f m tvirt (tvirt + total_size csz bsz psz xs) csz bsz psz xs args
        (omega arith) in
    let (m', placed, program) =
      put_program-IsProgram f m tvirt image csz bsz pre psz xs aligned small image_out pre_out
        args in
    let ring1 : IsRing (next_thread s1) s1.head_thrd ts =
      subst (λ h. IsRing (next_thread s1) h ts) (sym head)
        (IsRing-pointwise (next_thread s) (next_thread s1) s.head_thrd ts
          (λ q. ap (λ z. (z q).next_sched) threads) ring) in
    let few : 3 ≤ 100 = omega arith in
    let (s', w', run, scheduled) =
      schedule-IsScheduled s1 w p start
        (entry ∷ (align_pointer (csz + bsz + psz) + uspace_bot) ∷ length xs ∷ []) false t tstack
        flags ts (locked ∙ free) few ring1 out real in
    let run' =
      ap (λ v. schedule s1 w p start v false t tstack flags)
        (stack_words tvirt csz bsz psz entry xs aligned)
      ∙ run in
    (
      s',
      m',
      w',
      uspawn-calls f s s1 m m' w image csz bsz entry pre psz (addresses xs) p t tvirt tstack phys
          flags (total_size csz bsz psz xs) (s', w') sized placed
          (add_process-create_process s p free) run',
      program,
      scheduled,
    )
