-- ===== src/Marking/Reach.antt =====
-- The loop of `mark_from` ends, and marks exactly what references lead to from the roots.
use gc_united.Base.{
  ℕ, zero, suc, ◌+◌, ◌*◌, ◌≤◌, ◌<◌, ◌≡◌, refl, sym, ◌∙◌, ap, ◌↔◌, inl, inr, arith, true, false, not,
  ◌||◌, ◌&&◌, if◌then◌else◌, Bool-cases, ℕ_discrete, List, [], ◌∷◌, ◌++◌, length, length-append,
  has, has-append, count, has_of_count-pos, subst, unsnoc, unsnoc-append, some, ok, u64_values,
  add64, add64-ok,
}
use gc_united.Heap
use gc_united.Heap.{Memory, Heap, Handle, header_size, write, flag_mark, off_flags}
use gc_united.Heap.Views.{size_at, nrefs_at, flag-ok, set_flag-ok}
use gc_united.Heap.Chain.{Chain}
use gc_united.Marking.{unmarked, mark_loop, mark_from}
use gc_united.Marking.Graph.{
  IsGraph, refs_at, mark_all, marked_at, marked_at-mark_all, children-refs_at, inside_graph,
  nrefs-mark_all, refs-mark_all, length-refs_from,
}

-- A root, or what a reference of something reachable names.
pub data Reach (m : Memory) (roots : List Handle) : Handle → Type 0 where
  root : {a : Handle} → has a roots ≡ true → Reach m roots a
  edge : {a b : Handle} → Reach m roots a → has b (refs_at m a) ≡ true → Reach m roots b

-- What the objects that are not yet seen weigh.
abbrev unseen : (Handle → ℕ) → List Handle → List Handle → ℕ
unseen w [] seen = 0
unseen w (b ∷ bs) seen = (if has b seen then 0 else w b) + unseen w bs seen

unseen-le :
    (w : Handle → ℕ) (bs : List Handle) (h : Handle) (seen : List Handle)
    → unseen w bs (h ∷ seen) ≤ unseen w bs seen
unseen-le w [] h seen = omega arith
unseen-le w (b ∷ bs) h seen = ground (arith, unseen-le w bs h seen)

unseen-visit :
    (w : Handle → ℕ) (bs : List Handle) (h : Handle) (seen : List Handle)
    → has h bs ≡ true
    → has h seen ≡ false
    → w h + unseen w bs (h ∷ seen) ≤ unseen w bs seen
unseen-visit w [] h seen member new = cc
unseen-visit w (b ∷ bs) h seen member new = elim (ℕ_discrete h b) [
  | yes e ↦ rw (sym e) (ground (arith, unseen-le w bs h seen))
  | no ne ↦ ground (arith, unseen-visit w bs h seen (ground arith) new)
]

unseen-length : (bs : List Handle) → unseen (λ _. 1) bs [] ≡ length bs
unseen-length [] = refl
unseen-length (b ∷ bs) = omega (arith, unseen-length bs)

-- The slots of all objects are fewer than the bytes.
unseen-slots :
    (m : Memory) (bs : List Handle) (lo hi : ℕ)
    → Chain m lo bs hi
    → ((h : Handle) → has h bs ≡ true → header_size + 4 * nrefs_at m h ≤ size_at m h)
    → lo + unseen (nrefs_at m) bs [] ≤ hi
unseen-slots m [] lo hi c room = omega arith
unseen-slots m (b ∷ bs) lo hi (e, is, c) room =
    let own = room b (ground arith) in
    omega (arith, unseen-slots m bs _ hi c (λ h p. room h (ground arith)))

-- Those that are not yet marked.
abbrev fresh : List Handle → List Handle → List Handle
fresh seen [] = []
fresh seen (c ∷ cs) = if has c seen then fresh seen cs else c ∷ fresh seen cs

length-fresh : (seen cs : List Handle) → length (fresh seen cs) ≤ length cs
length-fresh seen [] = omega arith
length-fresh seen (c ∷ cs) = ground (arith, length-fresh seen cs)

has-fresh :
    (a : Handle) (seen cs : List Handle) → has a (fresh seen cs) ≡ (has a cs && not (has a seen))
has-fresh a seen [] = refl
has-fresh a seen (c ∷ cs) = elim (ℕ_discrete a c) [
  | yes e ↦ rw e (ground (arith, has-fresh c seen cs))
  | no ne ↦ ground (arith, has-fresh a seen cs)
]

module _ {hp : Heap} {bs : List Handle} {top : ℕ} (g : IsGraph hp bs top)
    (clear : (h : Handle) → has h bs ≡ true → marked_at hp.bytes h ≡ false) (roots : List Handle)
    (rooted : (h : Handle) → has h roots ≡ true → has h bs ≡ true) where
  Reach-member : {a : Handle} → Reach hp.bytes roots a → has a bs ≡ true
  Reach-member (root {a} h) = rooted a h
  Reach-member (edge {a} {b} r h) = g.closed a b (Reach-member r) h

  -- Between two rounds, when `seen` is marked.
  record Inv (seen work : List Handle) : Type 0 where
    sound : (a : Handle) → has a seen ≡ true → Reach hp.bytes roots a
    pending : (a : Handle) → has a work ≡ true → Reach hp.bytes roots a
    start : (a : Handle) → has a roots ≡ true → (has a seen || has a work) ≡ true
    followed :
        (a b : Handle)
        → has a seen ≡ true
        → has b (refs_at hp.bytes a) ≡ true
        → (has b seen || has b work) ≡ true
    once : (a : Handle) → count a seen ≤ 1
    few : length seen + unseen (λ _. 1) bs seen ≤ length bs

  Inv-start : Inv [] roots
  Inv-start = record {
    sound = λ a h. cc;
    pending = λ a h. root h;
    start = λ a h. h;
    followed = λ a b h k. cc;
    once = λ a. omega arith;
    few = omega (arith, unseen-length bs);
  }

  module _ (seen rest : List Handle) (h : Handle) (i : Inv seen (rest ++ h ∷ [])) where
    snoc : (a : Handle) → has a (rest ++ h ∷ []) ≡ (has a rest || has a (h ∷ []))
    snoc a = has-append a rest (h ∷ [])

    here : Reach hp.bytes roots h
    here = i.pending h (ground (arith, snoc h))

    Inv-skip : has h seen ≡ true → Inv seen rest
    Inv-skip old = record {
      sound = i.sound;
      pending = λ a p. i.pending a (ground (arith, snoc a));
      start = λ a p. ground (arith, i.start a p, snoc a);
      followed = λ a b p q. ground (arith, i.followed a b p q, snoc b);
      once = i.once;
      few = i.few;
    }

    Inv-visit : has h seen ≡ false → Inv (h ∷ seen) (rest ++ fresh (h ∷ seen) (refs_at hp.bytes h))
    Inv-visit new =
        let cs = refs_at hp.bytes h in
        let more = fresh (h ∷ seen) cs in
        let joined : (a : Handle)
            → has a (rest ++ more) ≡ (has a rest || (has a cs && not (has a (h ∷ seen)))) =
          λ a. has-append a rest more ∙ ap (λ b. has a rest || b) (has-fresh a (h ∷ seen) cs) in
        record {
          sound =
              λ a p. elim (ℕ_discrete a h) [ yes e ↦ rw e here | no ne ↦ i.sound a (ground arith) ];
          pending = λ a p. elim (Bool-cases (has a cs)) [
            | inl child ↦ edge here child
            | inr other ↦ i.pending a (ground (arith, joined a, snoc a))
          ];
          start = λ a p. ground (arith, i.start a p, joined a, snoc a);
          followed = λ a b p q. elim (ℕ_discrete a h) [
            | yes e ↦ let child : has b cs ≡ true = rw e at q in ground (arith, joined b)
            | no ne ↦ ground (arith, i.followed a b, joined b, snoc b)
          ];
          once = λ a. ground (arith, i.once a, has_of_count-pos a seen);
          few = omega (arith, i.few, unseen-visit (λ _. 1) bs h seen (Reach-member here) new);
        }

  part :
      (seen work : List Handle) → Inv seen work → (c : Handle) → has c seen ≡ true → has c bs ≡ true
  part seen work i c p = Reach-member (i.sound c p)

  marked_heap : List Handle → Heap
  marked_heap seen = write hp (mark_all hp.bytes seen)

  is_marked-ok :
      (seen : List Handle) (h : Handle)
      → has h bs ≡ true
      → Heap.is_marked (marked_heap seen) h ≡ ok (has h seen)
  unfolding Heap.is_marked marked_heap
  is_marked-ok seen h member =
      flag-ok (marked_heap seen) h (omega (arith, inside_graph g h member)) flag_mark
      ∙ ap ok (marked_at-mark_all hp.bytes seen h g.bytes (clear h member))

  unmarked-fresh :
      (seen cs : List Handle)
      → ((c : Handle) → has c cs ≡ true → has c bs ≡ true)
      → unmarked (marked_heap seen) cs ≡ ok (fresh seen cs)
  unfolding unmarked
  unmarked-fresh seen [] all = refl
  unmarked-fresh seen (c ∷ cs) all =
      rw
        (
          is_marked-ok seen c (all c (ground arith)),
          unmarked-fresh seen cs (λ a p. all a (ground arith)),
        )
        refl

  children-ok :
      (seen : List Handle)
      → ((c : Handle) → has c seen ≡ true → has c bs ≡ true)
      → (h : Handle) → has h bs ≡ true
      → Heap.children (marked_heap seen) h ≡ ok (refs_at hp.bytes h)
  unfolding marked_heap
  children-ok seen inside h member =
      children-refs_at (marked_heap seen) h
        (omega (arith, inside_graph g h member, nrefs-mark_all g seen inside h member))
      ∙ ap ok (refs-mark_all g seen inside h member)

  -- A round that meets an object again.
  mark_skip :
      (fuel k : ℕ) (seen rest : List Handle) (h : Handle)
      → Inv seen (rest ++ h ∷ [])
      → has h seen ≡ true
      → (work : List Handle) → unsnoc work ≡ some (rest, h)
      → mark_loop (suc fuel) (marked_heap seen) k work ≡ mark_loop fuel (marked_heap seen) k rest
  unfolding mark_loop
  mark_skip fuel k seen rest h i old work last =
      let member = Reach-member (here seen rest h i) in
      rw (mark_loop, last, is_marked-ok seen h member, old) refl

  -- A round that meets an object for the first time.
  mark_round :
      (fuel k : ℕ) (seen rest : List Handle) (h : Handle)
      → Inv seen (rest ++ h ∷ [])
      → has h seen ≡ false
      → k + length bs < u64_values
      → (work : List Handle) → unsnoc work ≡ some (rest, h)
      → mark_loop (suc fuel) (marked_heap seen) (k + length seen) work
        ≡ mark_loop fuel
            (marked_heap (h ∷ seen))
            (k + length (h ∷ seen))
            (rest ++ fresh (h ∷ seen) (refs_at hp.bytes h))
  unfolding mark_loop marked_heap
  mark_round fuel k seen rest h i new counted work last =
      let member = Reach-member (here seen rest h i) in
      let i' = Inv-visit seen rest h i new in
      let inside = part (h ∷ seen) _ i' in
      let sets : Heap.set_marked (marked_heap seen) h true ≡ ok (marked_heap (h ∷ seen)) =
        unfold Heap.set_marked in
        set_flag-ok (marked_heap seen) h (omega (arith, inside_graph g h member)) flag_mark true in
      let adds : add64 (k + length seen) 1 ≡ ok (k + length seen + 1) =
        add64-ok (k + length seen) 1 (omega (arith, i'.few)) in
      let total : k + length seen + 1 ≡ k + length (h ∷ seen) = omega arith in
      rw
        (
          mark_loop,
          last,
          is_marked-ok seen h member,
          new,
          sets,
          adds,
          children-ok (h ∷ seen) inside h member,
          unmarked-fresh (h ∷ seen) (refs_at hp.bytes h) (λ c p. g.closed h c member p),
          total,
        )
        refl

  -- With fuel for the pending items and the slots not yet seen, the loop ends.
  mark_ends :
      (fuel k : ℕ) (seen work : List Handle)
      → Inv seen work
      → k + length bs < u64_values
      → length work + unseen (nrefs_at hp.bytes) bs seen ≤ fuel
      → (hs : List Handle) × (mark_loop fuel (marked_heap seen) (k + length seen) work
          ≡ ok (marked_heap hs, k + length hs))
        × Inv hs []
  unfolding mark_loop
  mark_ends zero k seen [] i counted enough = (seen, refl, i)
  mark_ends (suc fuel) k seen [] i counted enough = (seen, unfold unsnoc in refl, i)
  mark_ends zero k seen (x ∷ xs) i counted enough = absurd (omega arith)
  mark_ends (suc fuel) k seen (x ∷ xs) i counted enough =
      let (rest, h, last, whole) = unsnoc-append x xs in
      let i' : Inv seen (rest ++ h ∷ []) = subst (Inv seen) whole i in
      let shorter : length (x ∷ xs) ≡ length rest + 1 =
        ap length whole ∙ length-append rest (h ∷ []) in
      elim (Bool-cases (has h seen)) [
        | inl old ↦
            let (hs, e, done) =
              mark_ends fuel k seen rest (Inv-skip seen rest h i' old) counted (omega arith) in
            (hs, mark_skip fuel (k + length seen) seen rest h i' old (x ∷ xs) last ∙ e, done)
        | inr new ↦
            let member = Reach-member (here seen rest h i') in
            let cs = refs_at hp.bytes h in
            let more = rest ++ fresh (h ∷ seen) cs in
            let (hs, e, done) =
              mark_ends fuel k (h ∷ seen) more (Inv-visit seen rest h i' new) counted (
                omega (
                  arith,
                  length-append rest (fresh (h ∷ seen) cs),
                  length-fresh (h ∷ seen) cs,
                  length-refs_from hp.bytes h 0 (nrefs_at hp.bytes h),
                  unseen-visit (nrefs_at hp.bytes) bs h seen member new,
                )) in
            (hs, mark_round fuel k seen rest h i' new counted (x ∷ xs) last ∙ e, done)
      ]

  Inv-complete :
      (hs : List Handle) → Inv hs [] → {a : Handle} → Reach hp.bytes roots a → has a hs ≡ true
  Inv-complete hs i (root {a} h) = ground (arith, i.start a h)
  Inv-complete hs i (edge {a} {b} r h) = ground (arith, i.followed a b (Inv-complete hs i r) h)

  -- Over a well-formed heap in which nothing is marked, from roots that are blocks, with room in the
  -- counter: the loop ends, counts the objects it marks, each once, and changes nothing but their mark bits. An
  -- object is marked exactly when references lead to it from the roots.
  pub mark_from-Reach :
      (marks : ℕ)
      → marks + length bs < u64_values
      → (hs : List Handle) × (mark_from hp marks roots
          ≡ ok (write hp (mark_all hp.bytes hs), marks + length hs))
        × ((a : Handle) → (has a hs ≡ true) ↔ Reach hp.bytes roots a)
        × ((a : Handle) → count a hs ≤ 1)
        × ((a : Handle) → has a bs ≡ true → marked_at (mark_all hp.bytes hs) a ≡ has a hs)
  unfolding mark_from marked_heap
  mark_from-Reach marks counted =
      let (hs, e, i) =
        mark_ends (length roots + hp.len) marks [] roots Inv-start counted
          (omega (arith, unseen-slots hp.bytes bs 0 top g.chain g.room, g.within)) in
      let none_yet : marks + length {A = Handle} [] ≡ marks = omega arith in
      (
        hs,
        ap (λ n. mark_loop (length roots + hp.len) hp n roots) (sym none_yet) ∙ e,
        λ a. (i.sound a, λ r. Inv-complete hs i r),
        i.once,
        λ a member. marked_at-mark_all hp.bytes hs a g.bytes (clear a member),
      )
