-- ===== src/Marking/Graph.antt =====
-- A heap of objects that refer to each other, as the loop of `mark_from` reads it: the references of
-- an object, and the memory in which some objects are marked.
use gc_united.Base.{
  ℕ, zero, suc, ◌+◌, ◌*◌, ◌%◌, ◌≤◌, ◌<◌, ◌≡◌, ◌≢◌, refl, sym, ◌∙◌, ap, inl, inr, arith, Bool, true,
  false, if◌then◌else◌, ℕ_discrete, List, [], ◌∷◌, length, has, ok,
}
use gc_united.Heap
use gc_united.Heap.{
  Memory, Heap, Handle, header_size, off_flags, off_size, off_nrefs, flag_mark, is_null, has_bit,
  with_bit, write, put8,
}
use gc_united.Heap.Words.{IsBytes, IsBytes-put8, put8-other, put8_self, word16-same, word32-same}
use gc_united.Heap.Views.{size_at, nrefs_at, flags_at, slot_at, nrefs-ok, field-ok}
use gc_united.Heap.Flags.{has_bit-with_bit}
use gc_united.Heap.Chain.{Chain, Chain-has}
use gc_united.Space.Apart.{Chain-apart}

-- The references in the `n` slots of `h` from `i` on, and all of them.
abbrev pub refs_from : Memory → Handle → ℕ → ℕ → List Handle
refs_from m h i zero = []
refs_from m h i (suc n) =
    if is_null (slot_at m h i)
    then refs_from m h (suc i) n
    else slot_at m h i ∷ refs_from m h (suc i) n

abbrev pub refs_at : Memory → Handle → List Handle
refs_at m h = refs_from m h 0 (nrefs_at m h)

-- The blocks `bs` tile the heap up to `top`, each has room for its slots, and each reference names
-- one of them.
pub record IsGraph (hp : Heap) (bs : List Handle) (top : ℕ) : Type 0 where
  pub chain : Chain hp.bytes 0 bs top
  pub within : top ≤ hp.len
  pub bytes : IsBytes hp.bytes
  pub room :
      (h : Handle) → has h bs ≡ true → header_size + 4 * nrefs_at hp.bytes h ≤ size_at hp.bytes h
  pub closed :
      (h c : Handle) → has h bs ≡ true → has c (refs_at hp.bytes h) ≡ true → has c bs ≡ true

-- The memory in which the objects `hs` are marked.
abbrev pub mark_all : Memory → List Handle → Memory
mark_all m [] = m
mark_all m (h ∷ hs) =
    put8 (mark_all m hs) (h + off_flags) (with_bit (flags_at (mark_all m hs) h) flag_mark true)

pub IsBytes-mark_all : (m : Memory) (hs : List Handle) → IsBytes m → IsBytes (mark_all m hs)
IsBytes-mark_all m [] b = b
IsBytes-mark_all m (h ∷ hs) b = IsBytes-put8 _ _ _ (IsBytes-mark_all m hs b)

-- Nothing but flag bytes changes.
pub mark_all-other :
    (m : Memory) (hs : List Handle) (x : ℕ)
    → ((c : Handle) → has c hs ≡ true → x ≢ c + off_flags)
    → mark_all m hs x ≡ m x
mark_all-other m [] x far = refl
mark_all-other m (h ∷ hs) x far =
    let here = far h (ground arith) in
    put8-other (mark_all m hs) (h + off_flags) _ x (ground arith)
    ∙ mark_all-other m hs x (λ c p. far c (ground arith))

abbrev pub marked_at : Memory → Handle → Bool
marked_at m h = has_bit (flags_at m h) flag_mark

-- An object is marked when it is one of those.
pub marked_at-mark_all :
    (m : Memory) (hs : List Handle) (h : Handle)
    → IsBytes m
    → marked_at m h ≡ false
    → marked_at (mark_all m hs) h ≡ has h hs
marked_at-mark_all m [] h b clear = clear
marked_at-mark_all m (c ∷ hs) h b clear =
    let m' = mark_all m hs in
    let f = flags_at m' c in
    elim (ℕ_discrete h c) [
      | yes e ↦
          let set : has_bit (with_bit f flag_mark true % 256) flag_mark ≡ true =
            has_bit-with_bit f 0 0 true (IsBytes-mark_all m hs b (c + off_flags)) (omega arith)
              (omega arith) in
          let here : has h (c ∷ hs) ≡ true = ground arith in
          rw (e, put8_self m' (c + off_flags) (with_bit f flag_mark true)) set ∙ sym here
      | no ne ↦
          let other : mark_all m (c ∷ hs) (h + off_flags) ≡ m' (h + off_flags) =
            put8-other m' (c + off_flags) _ (h + off_flags) (ground arith) in
          let there : has h (c ∷ hs) ≡ has h hs = ground arith in
          ap (λ f. has_bit f flag_mark) other ∙ marked_at-mark_all m hs h b clear ∙ sym there
    ]

-- `children` reads the references.
children_from-refs_from :
    (hp : Heap) (h i n : ℕ)
    → i + n ≡ nrefs_at hp.bytes h
    → h + header_size + 4 * nrefs_at hp.bytes h ≤ hp.len
    → Heap.children_from hp h i n ≡ ok (refs_from hp.bytes h i n)
unfolding Heap.children_from
children_from-refs_from hp h i zero e inside = refl
children_from-refs_from hp h i (suc n) e inside =
    rw
      (
        field-ok hp h (omega arith) i (omega arith) (omega arith),
        children_from-refs_from hp h (suc i) n (omega arith) inside,
      )
      refl

pub children-refs_at :
    (hp : Heap) (h : Handle)
    → h + header_size + 4 * nrefs_at hp.bytes h ≤ hp.len
    → Heap.children hp h ≡ ok (refs_at hp.bytes h)
unfolding Heap.children
children-refs_at hp h inside =
    rw (nrefs-ok hp h (omega arith))
      (children_from-refs_from hp h 0 (nrefs_at hp.bytes h) (omega arith) inside)

module _ {hp : Heap} {bs : List Handle} {top : ℕ} (g : IsGraph hp bs top) where
  pub inside_graph :
      (h : Handle) → has h bs ≡ true → h + header_size + 4 * nrefs_at hp.bytes h ≤ hp.len
  inside_graph h member =
      let (_, end, _) = Chain-has hp.bytes bs 0 top h g.chain member in
      omega (arith, g.room h member, g.within)

  -- The marks on objects of the graph.
  module _ (hs : List Handle) (part : (c : Handle) → has c hs ≡ true → has c bs ≡ true) (h : Handle)
      (member : has h bs ≡ true) where
    mark_all-inside :
        (x : ℕ)
        → h ≤ x
        → x < h + size_at hp.bytes h
        → x ≢ h + off_flags
        → mark_all hp.bytes hs x ≡ hp.bytes x
    mark_all-inside x lo hi ne = mark_all-other hp.bytes hs x (λ c c_in. elim (ℕ_discrete c h) [
      | yes same ↦ rw same ne
      | no other ↦
          let (_, _, block) = Chain-has hp.bytes bs 0 top c g.chain (part c c_in) in
          let big = block.big in
          λ e. elim (Chain-apart hp.bytes bs 0 top h c g.chain member (part c c_in) other) [
            | inl below ↦ absurd (omega arith)
            | inr above ↦ absurd (omega arith)
          ]
    ])

    pub nrefs-mark_all : nrefs_at (mark_all hp.bytes hs) h ≡ nrefs_at hp.bytes h
    nrefs-mark_all =
        let (_, _, block) = Chain-has hp.bytes bs 0 top h g.chain member in
        let big = block.big in
        word16-same hp.bytes (mark_all hp.bytes hs) (h + off_nrefs)
          (λ x p q. mark_all-inside x (omega arith) (omega arith) (λ e. absurd (omega arith)))

    slot-mark_all :
        (i : ℕ)
        → i < nrefs_at hp.bytes h
        → slot_at (mark_all hp.bytes hs) h i ≡ slot_at hp.bytes h i
    slot-mark_all i small =
        let room = g.room h member in
        word32-same hp.bytes (mark_all hp.bytes hs) (h + header_size + 4 * i)
          (λ x p q. mark_all-inside x (omega arith) (omega arith) (λ e. absurd (omega arith)))

    refs_from-mark_all :
        (i n : ℕ)
        → i + n ≡ nrefs_at hp.bytes h
        → refs_from (mark_all hp.bytes hs) h i n ≡ refs_from hp.bytes h i n
    refs_from-mark_all i zero e = refl
    refs_from-mark_all i (suc n) e =
        rw (slot-mark_all i (omega arith), refs_from-mark_all (suc i) n (omega arith)) refl

    -- Marks leave the references alone.
    pub refs-mark_all : refs_at (mark_all hp.bytes hs) h ≡ refs_at hp.bytes h
    refs-mark_all = rw nrefs-mark_all (refs_from-mark_all 0 (nrefs_at hp.bytes h) (omega arith))

pub length-refs_from : (m : Memory) (h i n : ℕ) → length (refs_from m h i n) ≤ n
length-refs_from m h i zero = omega arith
length-refs_from m h i (suc n) = ground (arith, length-refs_from m h (suc i) n)

-- A slot that is not null is one of the references.
has-refs_from :
    (m : Memory) (h i n j : ℕ)
    → i ≤ j
    → j < i + n
    → is_null (slot_at m h j) ≡ false
    → has (slot_at m h j) (refs_from m h i n) ≡ true
has-refs_from m h i zero j lo hi some_object = absurd (omega arith)
has-refs_from m h i (suc n) j lo hi some_object = elim (ℕ_discrete i j) [
  | yes e ↦ rw (e, some_object) (ground arith)
  | no ne ↦ ground (arith, has-refs_from m h (suc i) n j (omega arith) (omega arith) some_object)
]

pub has-refs_at :
    (m : Memory) (h j : ℕ)
    → j < nrefs_at m h
    → is_null (slot_at m h j) ≡ false
    → has (slot_at m h j) (refs_at m h) ≡ true
has-refs_at m h j small some_object =
    has-refs_from m h 0 (nrefs_at m h) j (omega arith) (omega arith) some_object
