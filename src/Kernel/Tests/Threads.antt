-- ===== src/Kernel/Tests/Threads.antt =====
-- The scheduler.
use frosk_current.Prelude.{
  List, ltb, length, inl, true, ◌≡◌, ◌+◌, refl, some, false, [], ◌∷◌, ◌==◌, if◌then◌else◌, arith,
}
use frosk_current.Prelude.Memory.{Memory}
use frosk_current.Kernel.Region.{page_size, allocate, shift_rgn}
use frosk_current.Kernel.Scheduler.{Scheduler, schedule, add_process, create_process, link_process}
use frosk_current.Kernel.Scheduler.Ring.{IsRing}
use frosk_current.Kernel.Scheduler.Linked.{
  IsScheduled, schedule-IsScheduled, next_proc, add_process-IsRing,
}
use frosk_current.Kernel.Uspawn.{uspace_bot, align_pointer, uspawn}
use frosk_current.Kernel.Uspawn.Args.{Argument, addresses}
use frosk_current.Kernel.Uspawn.Placed.{total_size, IsProgram, uspawn-IsProgram}

-- the threads at 5 and 6, and the process at 9
abbrev scheduler : Scheduler
scheduler = record {
  threads = λ q. record {
    parent = 9;
    next_inproc = 0;
    next_sched = if q == 5 then 6 else 5;
    rsp = 0;
    state = 0;
    page_fl = 7;
  };
  procs = λ q. record { next = 9; parent = 0; first = 6; timeslice = 1000 };
  head_thrd = 5;
  head_proc = 9;
  cur_thrd = 6;
  locked = false;
}

schedule-IsScheduled_example :
    (s' : Scheduler) × (w' : Memory) × (schedule scheduler
        (λ _. 0)
        9
        0x1000
        (1 ∷ 2 ∷ 3 ∷ [])
        false
        7
        0x8000
        2
      ≡ some (s', w'))
    × IsScheduled scheduler s' 9 0x1000
        (1 ∷ 2 ∷ 3 ∷ [])
        false
        7
        (5 ∷ 6 ∷ [])
        (0x8000 + page_size)
        2
        w'
schedule-IsScheduled_example =
    schedule-IsScheduled scheduler (λ _. 0) 9 0x1000 (1 ∷ 2 ∷ 3 ∷ []) false 7 0x8000 2 (5 ∷ 6 ∷ [])
      refl (omega arith) (refl, omega arith, (refl, tt), (refl, refl)) (refl, (refl, tt))
      (omega arith)

add_process-IsRing_example :
    (s' : Scheduler) × (add_process scheduler 8 ≡ some s')
    × IsRing (next_proc s') s'.head_proc (9 ∷ 8 ∷ [])
add_process-IsRing_example =
    add_process-IsRing scheduler 8 (9 ∷ []) refl (refl, omega arith, tt, refl) (refl, tt)
      (omega arith)

-- the string "ab" at 0x100 and "c" at 0x200; the code is 7, 7, 7, ... from 0x300 on
abbrev sources : Memory
sources q =
    if q == 0x100
    then 97
    else if q == 0x101
    then 98
    else if q == 0x200
    then 99
    else if ltb q 0x300
    then 0
    else 7

abbrev arguments : List Argument
arguments = record { at = 0x100; text = 97 ∷ 98 ∷ [] } ∷ record { at = 0x200; text = 99 ∷ [] } ∷ []

uspawn-IsProgram_example :
    (s' : Scheduler) × (m' : Memory) × (w' : Memory) × (uspawn 10 scheduler sources
        (λ _. 0)
        0x300
        20
        9
        0x200000
        0x400
        6
        (addresses arguments)
        12
        7
        0x8000
        0x10000
        0x90000
        2
      ≡ some (
        s',
        m',
        w',
        shift_rgn (allocate 0x8000 (total_size 20 9 6 arguments) true 0x90000) uspace_bot,
      ))
    × IsProgram sources m' 0x8000 0x300 20 9 0x400 6 arguments
    × IsScheduled
        (link_process (create_process scheduler 12) 12)
        s'
        12
        (20 + 9 + uspace_bot)
        (0x200000 ∷ (align_pointer (20 + 9 + 6) + uspace_bot) ∷ length arguments ∷ [])
        false
        7
        (5 ∷ 6 ∷ [])
        (0x10000 + page_size)
        2
        w'
uspawn-IsProgram_example =
    uspawn-IsProgram 10 scheduler sources (λ _. 0) 0x300 20 9 0x200000 0x400 6 arguments 12 7 0x8000
      0x10000 0x90000 2 (5 ∷ 6 ∷ []) refl (refl, omega arith, (refl, tt), (refl, refl))
      (refl, (refl, tt)) (omega arith) refl (omega arith) (inl (omega arith)) (inl (omega arith))
      (
        (refl, omega arith, omega arith, (refl, omega arith, omega arith, refl)),
        inl (omega arith),
        omega arith,
        ((refl, omega arith, omega arith, refl), inl (omega arith), omega arith, omega arith),
      )
