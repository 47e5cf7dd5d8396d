-- ===== src/Kernel/Uspawn.antt =====
-- `uspawn` of `kernel/src/scheduler.c`: what it writes to the memory of a new program, and the process that it makes.
-- `none` is a call that does not return.
pub mod Words
pub mod Args
pub mod Image
pub mod Placed
use frosk_current.Prelude.{
  ℕ, zero, suc, ◌+◌, ◌-◌, ◌*◌, ◌/◌, ◌%◌, Bool, true, false, Option, none, some, List, [], ◌∷◌, ◌==◌,
  if◌then◌else◌, ◌>>=◌, length,
}
use frosk_current.Prelude.Memory.{Memory, poke}
use frosk_current.Prelude.Words.{add64, mul64}
use frosk_current.Cstd.Str.{strlen, memcpy, memset}
use frosk_current.Kernel.Region.{Region, allocate, shift_rgn}
use frosk_current.Kernel.Scheduler.{Scheduler, create_process, add_process, schedule}

-- where a program begins
abbrev pub uspace_bot : ℕ
uspace_bot = 0x200000

-- align(x, sizeof(char *))
abbrev pub align_pointer : ℕ → ℕ
align_pointer x = if x % 8 == 0 then x else x - x % 8 + 8

-- size += strlen(argv[j]) + 1, over the arguments
pub add_lengths : (fuel : ℕ) → Memory → (size : ℕ) → (argv : List ℕ) → Option ℕ
add_lengths fuel m size [] = some size
add_lengths fuel m size (a ∷ argv) =
    strlen fuel m a >>= λ k. add_lengths fuel m (add64 size (add64 k 1)) argv

pub program_size : (fuel : ℕ) → Memory → (csz bsz preamble_size : ℕ) → (argv : List ℕ) → Option ℕ
unfolding add_lengths
program_size fuel m csz bsz preamble_size argv =
    let size = align_pointer (add64 (add64 csz bsz) preamble_size) in
    add_lengths fuel m (add64 size (mul64 (length argv) 8)) argv

-- The lower `k` bytes of `v` are written, the lowest one first.
pub put_bytes : (k : ℕ) → Memory → (a v : ℕ) → Memory
put_bytes zero m a v = m
put_bytes (suc k) m a v = put_bytes k (poke m a (v % 256)) (a + 1) (v / 256)

-- the characters of an argument and its terminator, and the place behind them
pub put_arg : (fuel : ℕ) → Memory → (i s : ℕ) → Option (Memory × ℕ)
put_arg zero m i s = none
put_arg (suc f) m i s = elim (m s == 0) [
  | true ↦ some (poke m i 0, i + 1)
  | false ↦ put_arg f (poke m i (m s)) (i + 1) (s + 1)
]

-- The arguments, `slot` being the address of `argvt[j]`.
pub put_args : (fuel : ℕ) → Memory → (tvirt slot i : ℕ) → (argv : List ℕ) → Option (Memory × ℕ)
unfolding put_bytes put_arg
put_args fuel m tvirt slot i [] = some (m, i)
put_args fuel m tvirt slot i (a ∷ argv) =
    put_arg fuel (put_bytes 8 m slot (i - tvirt + uspace_bot)) i a >>= λ r.
    put_args fuel (r.0) tvirt (slot + 8) (r.1) argv

-- code and data, zeros, and the preamble
abbrev pub put_code : Memory → (tvirt image csz bsz preamble_code preamble_size : ℕ) → Memory
put_code m tvirt image csz bsz preamble_code preamble_size =
    let m1 = memcpy m tvirt image csz in
    let m2 = memset m1 (tvirt + csz) 0 bsz in
    memcpy m2 (tvirt + csz + bsz) preamble_code preamble_size

-- `argvt`
abbrev pub args_begin : (tvirt csz bsz preamble_size : ℕ) → ℕ
args_begin tvirt csz bsz preamble_size = align_pointer (tvirt + csz + bsz + preamble_size)

-- All that is written from `tvirt` on, and the last value of `i`.
pub put_program :
    (fuel : ℕ)
    → Memory
    → (tvirt image csz bsz preamble_code preamble_size : ℕ) → (argv : List ℕ) → Option (Memory × ℕ)
unfolding put_args
put_program fuel m tvirt image csz bsz preamble_code preamble_size argv =
    let argvt = args_begin tvirt csz bsz preamble_size in
    put_args fuel (put_code m tvirt image csz bsz preamble_code preamble_size) tvirt argvt
      (argvt + length argv * 8) argv

-- What `uspawn` leaves: the scheduler, the bytes at `tvirt`, the words of the stack, and the region of the code. `alloc_pgs`
-- gives `tvirt` and `tstack`, `kalloc` `p` and `t`, and `phys` is the memory of the region; `w` are the words where the
-- stack is mapped. A program that is not as large as was computed is stopped by the assertion.
pub uspawn :
    (fuel : ℕ)
    → Scheduler
    → (m w : Memory) → (image csz bsz entry preamble_code preamble_size : ℕ) → (argv : List ℕ)
    → (p t tvirt tstack phys flags : ℕ) → Option (Scheduler × Memory × Memory × Region)
unfolding program_size put_program
uspawn fuel s m w image csz bsz entry preamble_code preamble_size argv p t tvirt tstack phys flags =
    program_size fuel m csz bsz preamble_size argv >>= λ size.
    put_program fuel m tvirt image csz bsz preamble_code preamble_size argv >>= λ r.
    if r.1 - tvirt == size
    then (add_process (create_process s p) p >>= λ s'.
        schedule s' w p (csz + bsz + uspace_bot)
          (entry ∷ (args_begin tvirt csz bsz preamble_size - tvirt + uspace_bot) ∷ length argv ∷ [])
          false t tstack flags
        >>= λ q. some (q.0, r.0, q.1, shift_rgn (allocate tvirt size true phys) uspace_bot))
    else none
