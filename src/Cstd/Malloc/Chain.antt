-- ===== src/Cstd/Malloc/Chain.antt =====
-- The list of free chunks in memory: `malloc` is first fit on it.
use mathlib.Core.Option.{bind}
use frosk_current.Prelude.{
  ℕ, zero, suc, ◌+◌, ◌-◌, ◌*◌, ◌/◌, ◌%◌, ◌^◌, ◌≤◌, ◌<◌, ◌≡◌, ◌≢◌, refl, ap, ◌∙◌, true, false,
  Option, none, some, List, [], ◌∷◌, arith, leb, ◌==◌, if◌then◌else◌, Bool-cases, inl, inr, length,
}
use frosk_current.Cstd.Malloc.{
  Chunk, Heap, store_next, set_chunk, chunk_size, take_chunk, malloc_loop,
}
use frosk_current.Cstd.Malloc.Fit.{Free, split, fit, Ordered}
use frosk_current.Prelude.Words.{add64}

-- From `p` on, the headers in memory are a list of the chunks `xs`.
abbrev pub Chain : (ℕ → Chunk) → ℕ → List Free → Type 0
Chain h p [] = p ≡ 0
Chain h p (c ∷ cs) = (p ≡ c.at) × (0 < c.at) × ((h c.at).size ≡ c.size) × Chain h (h c.at).next cs

-- `*pnext`
abbrev pub link : Heap → ℕ → ℕ
link h zero = h.head
link h (suc p) = (h.chunk (suc p)).next

Chain-frame :
    (h h' : ℕ → Chunk) (p lo hi : ℕ) (xs : List Free)
    → Ordered lo hi xs
    → ((q : ℕ) → lo ≤ q → h' q ≡ h q)
    → Chain h p xs
    → Chain h' p xs
Chain-frame h h' p lo hi [] o same ch = ch
Chain-frame h h' p lo hi (c ∷ cs) o same (e, pos, size, rest) =
    let at : h' c.at ≡ h c.at = same c.at o.0 in
    (
      e,
      pos,
      rw at size,
      rw at (
          Chain-frame h h' (h c.at).next (c.at + 16 + c.size) hi cs o.1
            (λ q le. same q (omega (arith, o.0))) rest),
    )

-- What `malloc_loop` has done, started at `*pnext`, when first fit serves `p` and leaves `rest`.
pub record Allocated (h : Heap) (pnext lo p : ℕ) (rest : List Free) (r : Option (ℕ × Heap))
    : Type 0 where
  pub after : Heap
  pub run : r ≡ some (p + 16, after)
  pub chain : Chain after.chunk (link after pnext) rest
  pub size : (after.chunk pnext).size ≡ (h.chunk pnext).size
  pub same : (q : ℕ) → q < lo → q ≢ pnext → after.chunk q ≡ h.chunk q
  pub head : pnext ≢ 0 → after.head ≡ h.head

abbrev pub Outcome : Heap → ℕ → ℕ → Option (ℕ × List Free) → Option (ℕ × Heap) → Type 0
Outcome h pnext lo none r = r ≡ some (0, h)
Outcome h pnext lo (some (p, rest)) r = Allocated h pnext lo p rest r

-- what a write through `pnext` does
record Stored (h : Heap) (pnext to : ℕ) (h' : Heap) : Type 0 where
  leads : link h' pnext ≡ to
  size : (h'.chunk pnext).size ≡ (h.chunk pnext).size
  same : (q : ℕ) → q ≢ pnext → h'.chunk q ≡ h.chunk q
  head : pnext ≢ 0 → h'.head ≡ h.head

store_next-Stored : (h : Heap) (pnext to : ℕ) → Stored h pnext to (store_next h pnext to)
store_next-Stored h zero to = record {
  leads = refl;
  size = refl;
  same = λ q ne. refl;
  head = λ ne. absurd (ne refl);
}
store_next-Stored h (suc p) to = record {
  leads = ground arith;
  size = ground arith;
  same = λ q ne. ground arith;
  head = λ ne. refl;
}

-- a write to the header of a chunk that is not at `pnext` leaves the link alone
link-put :
    (h : Heap) (pnext r : ℕ) (c : Chunk) → pnext < r → link (set_chunk h r c) pnext ≡ link h pnext
link-put h zero r c lt = refl
link-put h (suc p) r c lt = ground arith

module _ (h : Heap) (pnext lo hi n : ℕ) (c : Free) (cs : List Free) (o : Ordered lo hi (c ∷ cs))
    (pos : 0 < c.at) (size : (h.chunk c.at).size ≡ c.size)
    (chain : Chain h.chunk (h.chunk c.at).next cs) (before : pnext < lo) (small : n + 16 < 2 ^ 64)
    (whole : n % 16 ≡ 0) where
  no_wrap : add64 n chunk_size ≡ n + 16
  no_wrap = omega arith

  take_whole :
      leb c.size (n + 16) ≡ true → Allocated h pnext lo c.at cs (some (take_chunk h pnext c.at n))
  unfolding take_chunk
  take_whole fits =
      let next = (h.chunk c.at).next in
      let h' = store_next h pnext next in
      let st = store_next-Stored h pnext next in
      record {
        after = h';
        run = rw (no_wrap, size) (rw fits refl);
        chain = rw st.leads (
            Chain-frame h.chunk h'.chunk next (c.at + 16 + c.size) hi cs o.1
              (λ q le. st.same q (ground (arith, o.0))) chain);
        size = st.size;
        same = λ q lt ne. st.same q ne;
        head = st.head;
      }

  take_divided :
      leb c.size (n + 16) ≡ false
      → Allocated h pnext lo c.at (split c n ∷ cs) (some (take_chunk h pnext c.at n))
  unfolding take_chunk
  take_divided larger =
      let rest = c.at + 16 + n in
      let next = (h.chunk c.at).next in
      let h1 = store_next h pnext rest in
      let header : Chunk = record { next = next; size = c.size - n - 16 } in
      let h2 = set_chunk h1 rest header in
      let st = store_next-Stored h pnext rest in
      let at : c.at + chunk_size + n / chunk_size * chunk_size ≡ rest = omega arith in
      let here : h2.chunk rest ≡ header = ground arith in
      record {
        after = h2;
        run = rw (no_wrap, size) (rw larger (rw at refl));
        chain = (
          link-put h1 pnext rest header (omega (arith, o.0)) ∙ st.leads,
          omega arith,
          ap (λ (x : Chunk). x.size) here,
          rw here (
              Chain-frame h.chunk h2.chunk next (c.at + 16 + c.size) hi cs o.1
                (λ q le. ground (arith, st.same q, o.0)) chain),
        );
        size = ground (arith, st.size, o.0);
        same = λ q lt ne. ground (arith, st.same q ne, o.0);
        head = st.head;
      }

link-pos : (h : Heap) (p : ℕ) → 0 < p → link h p ≡ (h.chunk p).next
link-pos h zero pos = absurd (omega arith)
link-pos h (suc p) pos = refl

link-same : (h h' : Heap) (p : ℕ) → h'.head ≡ h.head → h'.chunk p ≡ h.chunk p → link h' p ≡ link h p
link-same h h' zero head chunk = head
link-same h h' (suc p) head chunk = ap (λ (x : Chunk). x.next) chunk

-- A block from further down the list, seen from here.
Allocated-cons :
    (h : Heap) (pnext lo p : ℕ) (c : Free) (rest : List Free) (r : Option (ℕ × Heap))
    → lo ≤ c.at
    → 0 < c.at
    → (h.chunk c.at).size ≡ c.size
    → link h pnext ≡ c.at
    → pnext < lo
    → Allocated h c.at (c.at + 16 + c.size) p rest r
    → Allocated h pnext lo p (c ∷ rest) r
Allocated-cons h pnext lo p c rest r le pos size leads before a = record {
  after = a.after;
  run = a.run;
  chain = (
    link-same h a.after pnext (a.head (omega arith)) (a.same pnext (omega arith) (omega arith))
        ∙ leads,
    pos,
    a.size ∙ size,
    rw (link-pos a.after c.at pos) at a.chain,
  );
  size = ap (λ (x : Chunk). x.size) (a.same pnext (omega arith) (omega arith));
  same = λ q lt ne. a.same q (omega arith) (omega arith);
  head = λ ne. a.head (omega arith);
}

Outcome-cons :
    (h : Heap) (pnext lo : ℕ) (c : Free) (served : Option (ℕ × List Free)) (r : Option (ℕ × Heap))
    → lo ≤ c.at
    → 0 < c.at
    → (h.chunk c.at).size ≡ c.size
    → link h pnext ≡ c.at
    → pnext < lo
    → Outcome h c.at (c.at + 16 + c.size) served r
    → Outcome h pnext lo (bind served (λ (p, rest). some (p, c ∷ rest))) r
unfolding bind
Outcome-cons h pnext lo c none r le pos size leads before e = e
Outcome-cons h pnext lo c (some (p, rest)) r le pos size leads before a =
    Allocated-cons h pnext lo p c rest r le pos size leads before a

take-Outcome :
    (h : Heap) (pnext lo hi n : ℕ) (c : Free) (cs : List Free)
    → Ordered lo hi (c ∷ cs)
    → 0 < c.at
    → (h.chunk c.at).size ≡ c.size
    → Chain h.chunk (h.chunk c.at).next cs
    → pnext < lo
    → n + 16 < 2 ^ 64
    → n % 16 ≡ 0
    → Allocated h pnext lo c.at
        (if leb c.size (n + 16) then cs else split c n ∷ cs)
        (some (take_chunk h pnext c.at n))
take-Outcome h pnext lo hi n c cs o pos size chain before small whole =
    elim (Bool-cases (leb c.size (n + 16))) [
      | inl fits ↦
          rw fits (take_whole h pnext lo hi n c cs o pos size chain before small whole fits)
      | inr larger ↦
          rw larger (take_divided h pnext lo hi n c cs o pos size chain before small whole larger)
    ]

pub malloc_loop-Outcome :
    (f : ℕ) (h : Heap) (pnext lo hi ch n : ℕ) (xs : List Free)
    → Ordered lo hi xs
    → Chain h.chunk ch xs
    → link h pnext ≡ ch
    → pnext < lo
    → n + 16 < 2 ^ 64
    → n % 16 ≡ 0
    → length xs < f
    → Outcome h pnext lo (fit n xs) (malloc_loop f h pnext ch n)
unfolding malloc_loop fit
malloc_loop-Outcome zero h pnext lo hi ch n xs o chain leads before small whole fuel =
    absurd (omega arith)
malloc_loop-Outcome (suc f) h pnext lo hi ch n [] o chain leads before small whole fuel =
    rw chain refl
malloc_loop-Outcome (suc f) h pnext lo hi ch n (c ∷ cs) o chain leads before small whole fuel =
    let nonnull : (c.at == 0) ≡ false = ground arith in
    rw chain.0 (
      rw (nonnull, malloc_loop)
        (rw chain.2 (elim (Bool-cases (leb n c.size)) [
          | inl enough ↦
              rw enough
                (take-Outcome h pnext lo hi n c cs o chain.1 chain.2 chain.3 before small whole)
          | inr too_small ↦ rw too_small (
              Outcome-cons h pnext lo c (fit n cs) _ o.0 chain.1 chain.2 (leads ∙ chain.0) before (
                malloc_loop-Outcome f h c.at (c.at + 16 + c.size) hi (h.chunk c.at).next n cs o.1
                  chain.3 (link-pos h c.at chain.1) (omega arith) small whole (omega arith)))
        ])))
