-- ===== src/Tests/ScanBlackTests.antt =====
-- `scan_black` of crates/gc-mod03/src/lib.rs at an object that names another one twice.
use gc_united.Base.{
  ◌+◌, ◌*◌, ◌<◌, ◌≤◌, ◌≡◌, ◌≢◌, ◌⊎◌, ℕ, refl, sym, subst, ap, ◌∙◌, inl, inr, arith, true, false, ok,
  List, [], ◌∷◌, has, ◌==◌,
}
use gc_united.Heap
use gc_united.Heap.{Memory, Handle, header_size, write, off_color, off_rc, put8, put16, put32}
use gc_united.Heap.Words.{IsBytes, IsBytes-put8, IsBytes-put16, IsBytes-put32}
use gc_united.Heap.Views.{size_at, nrefs_at, rc_at, color_at}
use gc_united.Heap.Chain.{Chain}
use gc_united.Roots
use gc_united.Stats.{fresh}
use gc_united.Marking.Graph.{IsGraph, refs_at}
use gc_united.CycleCollector.{CycleCollector, black, gray, with_heap, scan_black}
use gc_united.CycleCollector.Black.{scan_black-restores_one}

-- The object at 0 has two slots, both of which name the object at 32; trial deletion has taken both
-- references off that one and turned it gray.
abbrev pair : Memory
pair = put8 (put32 (put32 (put32 (put32 (put16 (λ _. 0) 4 2) 0 32) 16 32) 20 32) 32 32) 39 gray

abbrev blocks : List Handle
blocks = 0 ∷ 32 ∷ []

abbrev tried : CycleCollector
tried = record {
  space = record {
    heap = record { bytes = pair; len = 64 };
    free = [];
    sorted = true;
    bump = 64;
    used = 64;
  };
  roots = Roots.new;
  stats = fresh;
  pending = [];
  candidates = [];
  cycles_collected = 0;
}

pair-IsBytes : IsBytes pair
pair-IsBytes = IsBytes-put8 _ _ _ (
    IsBytes-put32 _ _ _ (
      IsBytes-put32 _ _ _ (
        IsBytes-put32 _ _ _ (IsBytes-put32 _ _ _ (IsBytes-put16 (λ _. 0) 4 2 (λ x. omega arith))))))

pair-Chain : Chain pair 0 blocks 64
unfolding Heap.word32 put32 put16 put8
pair-Chain = (
  refl,
  record { big = omega arith; whole = refl },
  (refl, record { big = omega arith; whole = refl }, refl),
)

two : (h : Handle) → has h blocks ≡ true → (h ≡ 0) ⊎ (h ≡ 32)
two h p = ground arith

refs_first : refs_at pair 0 ≡ 32 ∷ 32 ∷ []
unfolding Heap.word32 put32 put16 put8 Heap.word16
refs_first = refl

refs_second : refs_at pair 32 ≡ []
unfolding Heap.word32 put32 put16 put8 Heap.word16
refs_second = refl

room_each : (h : Handle) → has h blocks ≡ true → header_size + 4 * nrefs_at pair h ≤ size_at pair h
unfolding Heap.word32 put32 put16 put8 Heap.word16
room_each h p = elim (two h p) [
  | inl e ↦ subst (λ h. header_size + 4 * nrefs_at pair h ≤ size_at pair h) (sym e) (omega arith)
  | inr e ↦ subst (λ h. header_size + 4 * nrefs_at pair h ≤ size_at pair h) (sym e) (omega arith)
]

all_second : (c : Handle) → has c (refs_at pair 0) ≡ true → c ≡ 32
all_second c q =
    let q' : has c (32 ∷ 32 ∷ []) ≡ true = subst (λ l. has c l ≡ true) refs_first q in ground arith

closed_each :
    (h c : Handle) → has h blocks ≡ true → has c (refs_at pair h) ≡ true → has c blocks ≡ true
closed_each h c p q = elim (two h p) [
  | inl e ↦
      let second = all_second c (subst (λ h. has c (refs_at pair h) ≡ true) e q) in ground arith
  | inr e ↦
      let q' : has c [] ≡ true =
        subst (λ l. has c l ≡ true) (ap (refs_at pair) e ∙ refs_second) q in
      cc
]

pair-IsGraph : IsGraph tried.space.heap blocks 64
pair-IsGraph = record {
  chain = pair-Chain;
  within = omega arith;
  bytes = pair-IsBytes;
  room = room_each;
  closed = closed_each;
}

named : has 32 (refs_at pair 0) ≡ true
named = rw refs_first refl

leaf : nrefs_at pair 32 ≡ 0
unfolding put32 put16 put8 Heap.word16
leaf = refl

gray_child : (color_at pair 32 == black) ≡ false
unfolding put8
gray_child = refl

none_left : rc_at pair 32 ≡ 0
unfolding Heap.word32 put32 put16 put8
none_left = refl

scan_black-restores_one_example :
    (m : Memory) × (scan_black tried 0 ≡ ok (with_heap tried (write tried.space.heap m)))
    × (rc_at m 32 ≡ rc_at pair 32 + 1)
    × (color_at m 32 ≡ black)
    × (color_at m 0 ≡ black)
    × ((x : ℕ)
        → x ≢ 0 + off_color
        → x ≢ 32 + off_color
        → (x < 32 + off_rc) ⊎ (32 + off_rc + 4 ≤ x)
        → m x ≡ pair x)
scan_black-restores_one_example =
    scan_black-restores_one tried blocks 64 0 32 pair-IsGraph refl named all_second leaf gray_child
      (omega (arith, none_left))
