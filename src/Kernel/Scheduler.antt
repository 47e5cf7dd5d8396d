-- ===== src/Kernel/Scheduler.antt =====
-- `kernel/src/scheduler.c`: processes, threads, and the stack that a new thread begins with. A pointer is
-- the address of a structure, 0 is null. `none` is a call that waits for a lock for ever.
pub mod Ring
pub mod Frame
pub mod Linked
use Prim.Native.Nat.{bit_or}
use frosk_current.Prelude.{
  ℕ, zero, suc, ◌+◌, ◌-◌, ◌*◌, Bool, true, false, Option, none, some, List, [], ◌∷◌, ◌==◌,
  if◌then◌else◌, ◌>>=◌, length,
}
use frosk_current.Prelude.Memory.{Memory, poke}
use frosk_current.Kernel.Region.{page_size}
use frosk_current.Kernel.Interrupt.{kern_cs}
use frosk_current.Kernel.Fault.{low_half_top}

-- `process_t` and `thread_t`; the region of the code, the region of the stack and the queue of messages
-- are those of other modules.
pub record Process : Type 0 where
  pub next : ℕ
  pub parent : ℕ
  pub first : ℕ
  pub timeslice : ℕ

pub record Thread : Type 0 where
  pub parent : ℕ
  pub next_inproc : ℕ
  pub next_sched : ℕ
  pub rsp : ℕ
  pub state : ℕ
  pub page_fl : ℕ

-- the structures by address, and the variables of the scheduler
pub record Scheduler : Type 0 where
  pub threads : ℕ → Thread
  pub procs : ℕ → Process
  pub head_thrd : ℕ
  pub head_proc : ℕ
  pub cur_thrd : ℕ
  pub locked : Bool

abbrev pub set_proc : Scheduler → (p : ℕ) → Process → Scheduler
set_proc s p x = record s { procs = λ q. if q == p then x else s.procs q }

abbrev pub set_thread : Scheduler → (t : ℕ) → Thread → Scheduler
set_thread s t x = record s { threads = λ q. if q == t then x else s.threads q }

-- `p` is the address that `kalloc` gives.
pub create_process : Scheduler → (p : ℕ) → Scheduler
create_process s p = set_proc s p (record {
  next = (s.procs p).next;
  parent = if s.cur_thrd == 0 then 0 else (s.threads s.cur_thrd).parent;
  first = 0;
  timeslice = 1000;
})

-- the list of processes with another one
abbrev pub link_process : Scheduler → (p : ℕ) → Scheduler
link_process s p =
    if s.head_proc == 0
    then record (set_proc s p (record (s.procs p) { next = p })) { head_proc = p }
    else (let s' = set_proc s p (record (s.procs p) { next = (s.procs s.head_proc).next }) in
        set_proc s' s.head_proc (record (s'.procs s.head_proc) { next = p }))

pub add_process : Scheduler → (p : ℕ) → Option Scheduler
add_process s p = if s.locked then none else some (link_process s p)

-- the circular list of threads with another one
abbrev pub link_thread : Scheduler → (t : ℕ) → Scheduler
link_thread s t =
    if s.head_thrd == 0
    then record (set_thread s t (record (s.threads t) { next_sched = t })) { head_thrd = t }
    else (let s' =
          set_thread s t
            (record (s.threads t) { next_sched = (s.threads s.head_thrd).next_sched }) in
        set_thread s' s.head_thrd (record (s'.threads s.head_thrd) { next_sched = t }))

-- the list of the threads of a process with another one, which is ready from then on
abbrev pub link_inproc : Scheduler → (par t : ℕ) → Scheduler
link_inproc s par t =
    let s' =
      set_thread s t (record (s.threads t) { next_inproc = (s.procs par).first; state = 0 }) in
    set_proc s' par (record (s.procs par) { first = t })

-- for (i = 0; i < extz; i++) ttop[-1 - i] = extv[i], from `i` on, on words by address
pub push_words : Memory → (top i : ℕ) → List ℕ → Memory
push_words w top i [] = w
push_words w top i (x ∷ extv) = push_words (poke w (top - 8 * (i + 1)) x) top (i + 1) extv

-- `USER_CS | 3` and `USER_DS | 3`
abbrev pub user_cs : ℕ
user_cs = 0x1B

abbrev pub user_ds : ℕ
user_ds = 0x23

abbrev pub kern_ds : ℕ
kern_ds = 0x10

-- `rtop`, a page below the top of the lower half
abbrev pub stack_top : ℕ
stack_top = low_half_top - page_size

-- What is written below `ttop`; `flags` is what `getfl` returns.
pub push_frame : Memory → (ttop start : ℕ) → List ℕ → (kthrd : Bool) → (flags : ℕ) → Memory
unfolding push_words
push_frame w ttop start extv kthrd flags =
    let z = length extv in
    let w1 = poke w (ttop - 8 * (6 + z)) 1 in
    let w2 = poke w1 (ttop - 8 * (5 + z)) start in
    let w3 = poke w2 (ttop - 8 * (4 + z)) (if kthrd then kern_cs else user_cs) in
    let w4 = poke w3 (ttop - 8 * (3 + z)) (bit_or flags 0x200) in
    let w5 = poke w4 (ttop - 8 * (2 + z)) (stack_top - 8 * z) in
    let w6 = poke w5 (ttop - 8 * (1 + z)) (if kthrd then kern_ds else user_ds) in
    push_words w6 ttop 0 extv

-- the fields of the new thread before it is linked
abbrev pub set_up_thread : Scheduler → (par extz : ℕ) → (kthrd : Bool) → (t : ℕ) → Scheduler
set_up_thread s par extz kthrd t = set_thread s t (record {
  parent = par;
  next_inproc = (s.threads t).next_inproc;
  next_sched = (s.threads t).next_sched;
  rsp = stack_top - 8 * (6 + extz);
  state = 1;
  page_fl = if kthrd then 3 else 7;
})

-- `t` is the address that `kalloc` gives, `tvirt` that of the two pages where the stack is mapped meanwhile,
-- and `w` the words there. The region of the stack is moved to its place by `shift_rgn`.
pub schedule :
    Scheduler
    → (w : Memory) → (par start : ℕ) → (extv : List ℕ) → (kthrd : Bool) → (t tvirt flags : ℕ)
    → Option (Scheduler × Memory)
unfolding push_frame
schedule s w par start extv kthrd t tvirt flags =
    if s.locked
    then none
    else some (
      link_inproc (link_thread (set_up_thread s par (length extv) kthrd t) t) par t,
      push_frame w (tvirt + page_size) start extv kthrd flags,
    )

pub kspawn :
    Scheduler → (w : Memory) → (start : ℕ) → (p t tvirt flags : ℕ) → Option (Scheduler × Memory)
unfolding create_process add_process schedule
kspawn s w start p t tvirt flags =
    add_process (create_process s p) p >>= λ s'. schedule s' w p start [] true t tvirt flags
