-- ===== src/Kernel/Scheduler/Linked.antt =====
-- What the lists of the scheduler are after a new thread or process.
use mathlib.Core.Path.{subst}
use frosk_current.Prelude.{
  ℕ, ◌+◌, ◌-◌, ◌*◌, ◌≤◌, ◌<◌, ◌≡◌, inl, inr, Bool-cases, List, [], ◌∷◌, some, ◌==◌, if◌then◌else◌,
  arith, refl, sym, ◌∙◌, false, Bool, true, ap, length,
}
use frosk_current.Prelude.Memory.{Memory}
use frosk_current.Kernel.Region.{page_size}
use frosk_current.Kernel.Scheduler.{
  Scheduler, Thread, create_process, set_proc, link_thread, link_process, link_inproc, set_thread,
  schedule, add_process, push_frame, stack_top, kern_ds, user_cs, user_ds,
}
use frosk_current.Kernel.Interrupt.{kern_cs}
use frosk_current.Kernel.Scheduler.Frame.{IsFrame, push_frame-IsFrame}
use frosk_current.Kernel.Scheduler.Ring.{
  IsRing, IsOutside, ring_insert, IsRing-single, IsRing-insert, IsRing-pointwise,
}

abbrev pub next_thread : Scheduler → ℕ → ℕ
next_thread s q = (s.threads q).next_sched

abbrev pub next_proc : Scheduler → ℕ → ℕ
next_proc s q = (s.procs q).next

-- the test of an element against itself
same : (q : ℕ) → (q == q) ≡ true
same q = ground arith

swapped : (p q : ℕ) → (p == q) ≡ false → (q == p) ≡ false
swapped p q h = ground (arith, h)

link_process-IsRing :
    (s : Scheduler) (p : ℕ) (ps : List ℕ)
    → IsRing (next_proc s) s.head_proc ps
    → IsOutside p ps
    → 0 < p
    → IsRing (next_proc (link_process s p)) (link_process s p).head_proc (ring_insert p ps)
link_process-IsRing s p [] empty out real =
    let e : (s.head_proc == 0) ≡ true = ground (arith, empty) in
    let s' : Scheduler = record (set_proc s p (record (s.procs p) { next = p })) {
      head_proc = p;
    } in
    let link : s' ≡ link_process s p = rw e refl in
    subst (λ z. IsRing (next_proc z) z.head_proc (p ∷ [])) link
      (IsRing-single (next_proc s') p real (rw (next_proc, same p) refl))
link_process-IsRing s p (x ∷ xs) ring (new, news) real =
    let e : (s.head_proc == 0) ≡ false = ground (arith, ring) in
    let other : (p == s.head_proc) ≡ false = ap (λ h. p == h) (ring.0) ∙ new in
    let s1 : Scheduler = set_proc s p (record (s.procs p) { next = (s.procs s.head_proc).next }) in
    let s' : Scheduler = set_proc s1 s.head_proc (record (s1.procs s.head_proc) { next = p }) in
    let link : s' ≡ link_process s p = rw e refl in
    subst (λ z. IsRing (next_proc z) z.head_proc (ring_insert p (x ∷ xs))) link
      (IsRing-insert (next_proc s) (next_proc s') s.head_proc p x xs ring (new, news)
        (rw (next_proc, same s.head_proc) refl) (rw (next_proc, other, same p) refl)
        (λ q hx ht. rw (next_proc, swapped s.head_proc q hx, swapped p q ht) refl))

-- A process that is added is the second one of the circular list, or the only one.
pub add_process-IsRing :
    (s : Scheduler) (p : ℕ) (ps : List ℕ)
    → s.locked ≡ false
    → IsRing (next_proc s) s.head_proc ps
    → IsOutside p ps
    → 0 < p
    → (s' : Scheduler) × (add_process s p ≡ some s')
      × IsRing (next_proc s') s'.head_proc (ring_insert p ps)
unfolding add_process
add_process-IsRing s p ps free ring out real =
    (link_process s p, rw free refl, link_process-IsRing s p ps ring out real)

link_thread-IsRing :
    (s : Scheduler) (t : ℕ) (ts : List ℕ)
    → IsRing (next_thread s) s.head_thrd ts
    → IsOutside t ts
    → 0 < t
    → IsRing (next_thread (link_thread s t)) (link_thread s t).head_thrd (ring_insert t ts)
link_thread-IsRing s t [] empty out real =
    let e : (s.head_thrd == 0) ≡ true = ground (arith, empty) in
    let s' : Scheduler = record (set_thread s t (record (s.threads t) { next_sched = t })) {
      head_thrd = t;
    } in
    let link : s' ≡ link_thread s t = rw e refl in
    subst (λ z. IsRing (next_thread z) z.head_thrd (t ∷ [])) link
      (IsRing-single (next_thread s') t real (rw (next_thread, same t) refl))
link_thread-IsRing s t (x ∷ xs) ring (new, news) real =
    let e : (s.head_thrd == 0) ≡ false = ground (arith, ring) in
    let other : (t == s.head_thrd) ≡ false = ap (λ h. t == h) (ring.0) ∙ new in
    let s1 : Scheduler =
      set_thread s t (record (s.threads t) { next_sched = (s.threads s.head_thrd).next_sched }) in
    let s' : Scheduler =
      set_thread s1 s.head_thrd (record (s1.threads s.head_thrd) { next_sched = t }) in
    let link : s' ≡ link_thread s t = rw e refl in
    subst (λ z. IsRing (next_thread z) z.head_thrd (ring_insert t (x ∷ xs))) link
      (IsRing-insert (next_thread s) (next_thread s') s.head_thrd t x xs ring (new, news)
        (rw (next_thread, same s.head_thrd) refl) (rw (next_thread, other, same t) refl)
        (λ q hx ht. rw (next_thread, swapped s.head_thrd q hx, swapped t q ht) refl))

-- a new thread keeps its other fields when it is linked
link_thread-new :
    (s : Scheduler) (t : ℕ) (ts : List ℕ)
    → IsRing (next_thread s) s.head_thrd ts
    → IsOutside t ts
    → (next : ℕ) × ((link_thread s t).threads t ≡ record (s.threads t) { next_sched = next })
link_thread-new s t [] empty out =
    let e : (s.head_thrd == 0) ≡ true = ground (arith, empty) in (t, rw (e, same t) refl)
link_thread-new s t (x ∷ xs) ring (new, news) =
    let e : (s.head_thrd == 0) ≡ false = ground (arith, ring) in
    let other : (t == s.head_thrd) ≡ false = ap (λ h. t == h) (ring.0) ∙ new in
    ((s.threads s.head_thrd).next_sched, rw (e, other, same t) refl)

-- `next` of a field that an update at `t` leaves as it is
unchanged :
    (s : Scheduler) (t : ℕ) (x : Thread)
    → x.next_sched ≡ (s.threads t).next_sched
    → (q : ℕ) → next_thread (set_thread s t x) q ≡ next_thread s q
unchanged s t x e q = elim (Bool-cases (q == t)) [
  | inl h ↦
      let at : q ≡ t = ground (arith, h) in
      rw (next_thread, h) (e ∙ ap (λ z. (s.threads z).next_sched) (sym at))
  | inr h ↦ rw (next_thread, h) refl
]

link_thread-procs : (s : Scheduler) (t : ℕ) → (link_thread s t).procs ≡ s.procs
link_thread-procs s t = elim (Bool-cases (s.head_thrd == 0)) [
  | inl e ↦ rw e refl
  | inr e ↦ rw e refl
]

-- What `schedule` leaves: the new thread is the second one of the circular list, or the only one, and the first one
-- of its process, before the others; it is ready, and its stack pointer is at the frame on its stack.
pub record IsScheduled (s s' : Scheduler) (par start : ℕ) (extv : List ℕ) (kthrd : Bool) (t : ℕ)
    (ts : List ℕ) (top flags : ℕ) (w' : Memory) : Type 0 where
  pub ring : IsRing (next_thread s') s'.head_thrd (ring_insert t ts)
  pub first : (s'.procs par).first ≡ t
  pub others : (s'.threads t).next_inproc ≡ (s.procs par).first
  pub parent : (s'.threads t).parent ≡ par
  pub ready : (s'.threads t).state ≡ 0
  pub rsp : (s'.threads t).rsp + 8 * (6 + length extv) ≡ stack_top
  pub frame :
      IsFrame w' top start extv
        (if kthrd then kern_cs else user_cs)
        flags
        (if kthrd then kern_ds else user_ds)

-- With the lock free, at most 100 words for the start and a thread that is new, `schedule` returns, and leaves the lists,
-- the thread and its stack as they should be.
pub schedule-IsScheduled :
    (s : Scheduler) (w : Memory) (par start : ℕ) (extv : List ℕ) (kthrd : Bool) (t tvirt flags : ℕ)
    (ts : List ℕ)
    → s.locked ≡ false
    → length extv ≤ 100
    → IsRing (next_thread s) s.head_thrd ts
    → IsOutside t ts
    → 0 < t
    → (s' : Scheduler) × (w' : Memory) × (schedule s w par start extv kthrd t tvirt flags
        ≡ some (s', w'))
      × IsScheduled s s' par start extv kthrd t ts (tvirt + page_size) flags w'
unfolding schedule
schedule-IsScheduled s w par start extv kthrd t tvirt flags ts free few ring out real =
    let x : Thread = record {
      parent = par;
      next_inproc = (s.threads t).next_inproc;
      next_sched = (s.threads t).next_sched;
      rsp = stack_top - 8 * (6 + length extv);
      state = 1;
      page_fl = if kthrd then 3 else 7;
    } in
    let s1 = set_thread s t x in
    let s2 = link_thread s1 t in
    let y : Thread = record (s2.threads t) { next_inproc = (s2.procs par).first; state = 0 } in
    let s3 = link_inproc s2 par t in
    let ring1 =
      IsRing-pointwise (next_thread s) (next_thread s1) s.head_thrd ts (unchanged s t x refl)
        ring in
    let ring2 = link_thread-IsRing s1 t ts ring1 out real in
    let (next, new) = link_thread-new s1 t ts ring1 out in
    let at : s3.threads t ≡ y = rw (same t) refl in
    let was : s1.threads t ≡ x = rw (same t) refl in
    (
      s3,
      push_frame w (tvirt + page_size) start extv kthrd flags,
      rw free refl,
      record {
        ring =
            IsRing-pointwise (next_thread s2) (next_thread s3) s2.head_thrd (ring_insert t ts)
              (unchanged s2 t y refl) ring2;
        first = rw (same par) refl;
        others =
            ap (λ z. z.next_inproc) at ∙ ap (λ procs. (procs par).first) (link_thread-procs s1 t);
        parent = ap (λ z. z.parent) at ∙ ap (λ z. z.parent) new ∙ ap (λ z. z.parent) was;
        ready = ap (λ z. z.state) at;
        rsp =
            ap (λ z. z.rsp + 8 * (6 + length extv)) at
            ∙ ap (λ z. z.rsp + 8 * (6 + length extv)) new
            ∙ ap (λ z. z.rsp + 8 * (6 + length extv)) was
            ∙ omega (arith, few);
        frame = push_frame-IsFrame w (tvirt + page_size) start extv kthrd flags (omega arith);
      },
    )

pub add_process-create_process :
    (s : Scheduler) (p : ℕ)
    → s.locked ≡ false
    → add_process (create_process s p) p ≡ some (link_process (create_process s p) p)
unfolding add_process create_process
add_process-create_process s p free = rw free refl

-- A new process leaves the threads alone.
pub link_process-threads :
    (s : Scheduler) (p : ℕ)
    → let s' = link_process (create_process s p) p in
      (s'.threads ≡ s.threads) × (s'.head_thrd ≡ s.head_thrd) × (s'.locked ≡ s.locked)
unfolding create_process
link_process-threads s p = elim (Bool-cases (s.head_proc == 0)) [
  | inl e ↦ (rw e refl, rw e refl, rw e refl)
  | inr e ↦ (rw e refl, rw e refl, rw e refl)
]
