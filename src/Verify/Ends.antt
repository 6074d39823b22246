-- ===== src/Verify/Ends.antt =====
-- crates/gc-core/src/verify.rs: the loop of `verify` ends.
use native.Mathlib.Nat.{mul-suc, mul-le-mul_left}
use gc_united.Base.{
  ℕ, zero, suc, ◌+◌, ◌*◌, ◌≤◌, ◌<◌, ◌≡◌, ◌≢◌, refl, sym, ◌∙◌, ap, ◌⊎◌, inl, inr, arith, Bool, true,
  false, not, ◌&&◌, if◌then◌else◌, ltb, leb, ◌==◌, Bool-cases, ℕ_discrete, List, [], ◌∷◌,
  List-cases, length, length-append, has, unsnoc, unsnoc-append, Option, none, some, Exec, ok,
  assert, bind-ok, ok-inj, Option-cases, subst,
}
use gc_united.Heap
use gc_united.Heap.{Heap, Handle, header_size, is_null}
use gc_united.Model
use gc_united.Model.{Model, ModelObj, stamp_bytes, magic, magic_off, id_off}
use gc_united.Collector.{Collector, read_field}
use gc_united.Verify.Reports.{Origin, Violation, out_of_bounds, in_field}
use gc_united.Verify.Queue.{
  Walk, Item, identity, add_address, compare_slot, check_fields, check_shape, check_known,
  check_expected, check_found, check_item, walk_queue,
}

mul_step : (k a b : ℕ) → suc a ≤ b → k * a + k ≤ k * b
mul_step k zero (suc b) h = omega (arith, mul-suc k b)
mul_step k (suc a) (suc b) h = omega (arith, mul_step k a b (omega arith), mul-suc k a, mul-suc k b)
mul_step k a zero h = absurd (omega arith)

-- The addresses below `n` that were not visited.
abbrev unvisited : ℕ → List Handle → ℕ
unvisited zero visited = 0
unvisited (suc n) visited = (if has n visited then 0 else 1) + unvisited n visited

unvisited-le : (n : ℕ) (visited : List Handle) → unvisited n visited ≤ n
unvisited-le zero visited = omega arith
unvisited-le (suc n) visited = ground (arith, unvisited-le n visited)

unvisited-grow : (n h : ℕ) (visited : List Handle) → unvisited n (h ∷ visited) ≤ unvisited n visited
unvisited-grow zero h visited = omega arith
unvisited-grow (suc n) h visited = ground (arith, unvisited-grow n h visited)

-- A first visit takes one off.
unvisited-visit :
    (n h : ℕ) (visited : List Handle)
    → h < n
    → has h visited ≡ false
    → suc (unvisited n (h ∷ visited)) ≤ unvisited n visited
unvisited-visit zero h visited small new = absurd (omega arith)
unvisited-visit (suc n) h visited small new = elim (ℕ_discrete h n) [
  | yes e ↦ ground (arith, unvisited-grow n h visited)
  | no ne ↦ ground (arith, unvisited-visit n h visited (omega arith) new)
]

sum-cases : {A B : Type 0} (s : A ⊎ B) → ((a : A) × (s ≡ inl a)) ⊎ ((b : B) × (s ≡ inr b))
sum-cases (inl a) = inl (a, refl)
sum-cases (inr b) = inr (b, refl)

assert-ok : (b : Bool) {u : Unit {0}} → assert b ≡ ok u → b ≡ true
assert-ok true e = refl
assert-ok false e = cc

-- The slots of the object fit in the heap.
record HasRoom (hp : Heap) (h : Handle) (n : ℕ) : Type 0 where
  reads : Heap.nrefs hp h ≡ ok n
  room : h + header_size + 4 * n ≤ hp.len

data_range-HasRoom :
    (hp : Heap) (h : Handle) (r : ℕ × ℕ) → Heap.data_range hp h ≡ ok r → (n : ℕ) × HasRoom hp h n
unfolding Heap.data_range Heap.data_offset
data_range-HasRoom hp h r e =
    let (s, offset, e) = bind-ok (Heap.data_offset hp h) _ e in
    let (n, reads, at) = bind-ok (Heap.nrefs hp h) _ offset in
    let (k, _, e) = bind-ok (Heap.size hp h) _ e in
    let (_, inside, _) = bind-ok (assert (leb s (h + k) && leb (h + k) hp.len)) _ e in
    let fits = assert-ok (leb s (h + k) && leb (h + k) hp.len) inside in
    let start : h + header_size + 4 * n ≡ s = ok-inj at in
    (n, record { reads = reads; room = ground arith })

identity-HasRoom :
    (hp : Heap) (h : Handle) (origin : Origin) (id : ℕ)
    → identity hp h origin ≡ ok (inr id)
    → (n : ℕ) × HasRoom hp h n
unfolding identity
identity-HasRoom hp h origin id e =
    let (inside, _, e) = bind-ok (Heap.in_bounds hp h) _ e in
    elim (Bool-cases (not inside)) [
      | inl out ↦
          let bad : ◌≡◌ {A = Exec (Violation ⊎ ℕ)} (ok (inl (out_of_bounds origin h)))
              (ok (inr id)) =
            rw out at e in
          let worse = ok-inj bad in cc
      | inr good ↦
          let (r, range, _) = bind-ok (Heap.data_range hp h) _ (rw good at e) in
          data_range-HasRoom hp h r range
    ]

compare_slot-visited :
    (w : Walk) (h : Handle) (origin : Origin) (want : Option ℕ)
    → (compare_slot w h origin want).visited ≡ w.visited
unfolding compare_slot
compare_slot-visited w h origin none = elim (Bool-cases (is_null h)) [
  | inl p ↦ rw p refl
  | inr p ↦ rw p refl
]
compare_slot-visited w h origin (some id) = elim (Bool-cases (is_null h)) [
  | inl p ↦ rw p refl
  | inr p ↦ rw p refl
]

compare_slot-queue :
    (w : Walk) (h : Handle) (origin : Origin) (want : Option ℕ)
    → length (compare_slot w h origin want).queue ≤ length w.queue + 1
unfolding compare_slot
compare_slot-queue w h origin none = elim (Bool-cases (is_null h)) [
  | inl p ↦ rw p (omega arith)
  | inr p ↦ rw p (omega arith)
]
compare_slot-queue w h origin (some id) = elim (Bool-cases (is_null h)) [
  | inl p ↦ rw p (omega arith)
  | inr p ↦ rw p (omega (arith, length-append w.queue ((h, origin, some id) ∷ [])))
]

check_expected-queue :
    (w : Walk) (h : Handle) (origin : Origin) (expected : Option ℕ) (found : ℕ)
    → ((check_expected w h origin expected found).queue ≡ w.queue)
      × ((check_expected w h origin expected found).visited ≡ w.visited)
unfolding check_expected
check_expected-queue w h origin none found = (refl, refl)
check_expected-queue w h origin (some want) found = elim (Bool-cases (want == found)) [
  | inl p ↦ (rw p refl, rw p refl)
  | inr p ↦ (rw p refl, rw p refl)
]

module _ {C : Type 0} ⦃c : Collector C⦄ (gc : C) where
  abbrev len : ℕ
  len = (c.heap gc).len

  -- Each field that is read is a slot, so the fields add no more items than there are slots.
  check_fields-queue :
      (w w' : Walk) (h found i n : ℕ) (wants : List (Option ℕ))
      → Heap.nrefs (c.heap gc) h ≡ ok n
      → i ≤ n
      → check_fields gc w h found i wants ≡ ok w'
      → (length w'.queue + i ≤ length w.queue + n) × (w'.visited ≡ w.visited)
  unfolding check_fields read_field Heap.field
  check_fields-queue w w' h found i n [] reads small e =
      let same : w ≡ w' = ok-inj e in
      (
        subst (λ v. length v.queue + i ≤ length w.queue + n) same (omega arith),
        ap (λ v. v.visited) (sym same),
      )
  check_fields-queue w w' h found i n (want ∷ wants) reads small e =
      let (child, field, e) = bind-ok (Heap.field (c.heap gc) h i) _ e in
      let (k, reads', field) = bind-ok (Heap.nrefs (c.heap gc) h) _ field in
      let (_, named, _) = bind-ok (assert (ltb i k)) _ field in
      let same : n ≡ k = ok-inj (sym reads ∙ reads') in
      let inside : ltb i k ≡ true = assert-ok (ltb i k) named in
      let next = compare_slot w child (in_field found i) want in
      let (bound, kept) =
        check_fields-queue next w' h found (suc i) n wants reads (ground arith) e in
      (
        omega (arith, bound, compare_slot-queue w child (in_field found i) want),
        kept ∙ compare_slot-visited w child (in_field found i) want,
      )

  -- What the loop has left: items, and for each address not visited as many as there are bytes.
  abbrev weight : Walk → ℕ
  weight w = length w.queue + len * unvisited len w.visited

  check_shape-queue :
      (w w' : Walk) (h found n : ℕ) (o : ModelObj)
      → Heap.nrefs (c.heap gc) h ≡ ok n
      → check_shape gc w h found o ≡ ok w'
      → (length w'.queue ≤ length w.queue + n) × (w'.visited ≡ w.visited)
  unfolding check_shape
  check_shape-queue w w' h found n o reads e =
      let (k, reads', e) = bind-ok (Heap.nrefs (c.heap gc) h) _ e in
      elim (Bool-cases (not (k == o.nrefs))) [
        | inl differ ↦
            let same = ok-inj (rw differ at e) in
            (
              subst (λ v. length v.queue ≤ length w.queue + n) same (omega arith),
              ap (λ v. v.visited) (sym same),
            )
        | inr equal ↦
            let (bound, kept) =
              check_fields-queue w w' h found 0 n o.fields reads (omega arith) (rw equal at e) in
            (omega arith, kept)
      ]

  check_known-weight :
      (w w' : Walk) (h found n : ℕ) (o : ModelObj)
      → HasRoom (c.heap gc) h n
      → check_known gc w h found o ≡ ok w'
      → weight w' ≤ weight w
  unfolding check_known
  check_known-weight w w' h found n o has_room e = elim (Bool-cases (has h w.visited)) [
    | inl old ↦ subst (λ v. weight v ≤ weight w) (ok-inj (rw old at e)) (omega arith)
    | inr new ↦
        let room = has_room.room in
        let seen : Walk = record w {
          id_at = add_address found h w.id_at;
          visited = h ∷ w.visited;
        } in
        let runs : check_shape gc seen h found o ≡ ok w' = rw new at e in
        let (bound, kept) = check_shape-queue seen w' h found n o has_room.reads runs in
        let fewer = unvisited-visit len h w.visited (omega arith) new in
        let rest : unvisited len w'.visited ≡ unvisited len (h ∷ w.visited) =
          ap (unvisited len) kept in
        let paid = mul_step len (unvisited len (h ∷ w.visited)) (unvisited len w.visited) fewer in
        rw rest (omega arith)
  ]

  check_found-weight :
      (m : Model) (w w' : Walk) (h : Handle) (origin : Origin) (expected : Option ℕ) (found n : ℕ)
      → HasRoom (c.heap gc) h n
      → check_found gc m w h origin expected found ≡ ok w'
      → weight w' ≤ weight w
  unfolding check_found
  check_found-weight m w w' h origin expected found n has_room e =
      let next = check_expected w h origin expected found in
      let (queue, visited) = check_expected-queue w h origin expected found in
      let same : weight next ≡ weight w = rw (queue, visited) refl in
      elim (Option-cases (Model.get m found)) [
        | inl unknown ↦
            subst (λ v. weight v ≤ weight w) (ok-inj (rw (check_found, unknown) at e))
              (omega (arith, same))
        | inr (o, known) ↦ omega (
          arith,
          same,
          check_known-weight next w' h found n o has_room (rw (check_found, known) at e),
        )
      ]

  check_item-weight :
      (m : Model) (w w' : Walk) (item : Item)
      → check_item gc m w item ≡ ok w'
      → weight w' ≤ weight w
  unfolding check_item
  check_item-weight m w w' (h, origin, expected) e =
      let (answer, asked, e) = bind-ok (identity (c.heap gc) h origin) _ e in
      elim (sum-cases answer) [
        | inl (v, bad) ↦
            let runs = ok-inj (rw bad at e) in subst (λ v. weight v ≤ weight w) runs (omega arith)
        | inr (found, good) ↦
            let (n, has_room) = identity-HasRoom (c.heap gc) h origin found (asked ∙ ap ok good) in
            check_found-weight m w w' h origin expected found n has_room (rw good at e)
      ]

  -- With a unit of fuel for each item and for each slot of each address, the loop ends.
  walk_queue_within :
      (fuel : ℕ) (m : Model) (w : Walk) → weight w ≤ fuel → walk_queue fuel gc m w ≢ ok none
  unfolding walk_queue unsnoc
  walk_queue_within zero m w enough e = elim (List-cases w.queue) [
    | inl empty ↦
        let ends : ok (some w) ≡ ok none = rw (walk_queue, empty) at e in
        let bad = ok-inj ends in cc
    | inr (x, xs, full) ↦
        let more : length w.queue ≡ suc (length xs) = ap length full in absurd (omega arith)
  ]
  walk_queue_within (suc fuel) m w enough e = elim (List-cases w.queue) [
    | inl empty ↦
        let none_left : unsnoc w.queue ≡ none = ap unsnoc empty in
        let ends : ok (some w) ≡ ok none = rw (walk_queue, none_left) at e in
        let bad = ok-inj ends in cc
    | inr (x, xs, full) ↦
        let (rest, item, last, whole) = unsnoc-append x xs in
        let popped = record w { queue = rest } in
        let taken : unsnoc w.queue ≡ some (rest, item) = ap unsnoc full ∙ last in
        let (w', round, e) =
          bind-ok (check_item gc m popped item) (λ v. walk_queue fuel gc m v)
            (rw (walk_queue, taken) at e) in
        let shorter : length w.queue ≡ length rest + 1 =
          ap length (full ∙ whole) ∙ length-append rest (item ∷ []) in
        walk_queue_within fuel m w' (omega (arith, check_item-weight m popped w' item round)) e
  ]

  -- Over any collector, any model and any variables of the loop: with the fuel that `verify` gives it,
  -- the loop over the queue does not run out.
  pub walk_queue-ends :
      (m : Model) (w : Walk) → walk_queue (length w.queue + len * len) gc m w ≢ ok none
  walk_queue-ends m w =
      walk_queue_within (length w.queue + len * len) m w
        (omega (arith, mul-le-mul_left len (unvisited-le len w.visited)))
