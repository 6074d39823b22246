-- ===== src/CycleCollector/Black.antt =====
-- crates/gc-mod03/src/lib.rs: the counts that `scan_black` puts back.
use gc_united.Base.{
  ℕ, zero, suc, ◌+◌, ◌≤◌, ◌<◌, ◌≡◌, ◌≢◌, ◌⊎◌, refl, sym, ap, ◌∙◌, arith, true, false, List, [], ◌∷◌,
  ok, ◌==◌, ◌>>=◌, u32_values, add32-ok, has, unsnoc,
}
use gc_united.Heap.{Memory, Handle, header_size, off_color, off_rc, put32, write}
use gc_united.Heap.Words.{put8-other, word32-same}
use gc_united.Heap.Views.{rc_at, color_at, nrefs_at, rc-ok, color-ok, set_rc-ok, set_color-ok}
use gc_united.Heap.Chain.{Chain-has}
use gc_united.Space.Apart.{Chain-apart}
use gc_united.Marking.Graph.{IsGraph, refs_at, refs_from, children-refs_at, inside_graph}
use gc_united.CycleCollector.{
  CycleCollector, black, children, restore_children, restore, scan_black, color_of, set_color,
  with_heap,
}
use gc_united.CycleCollector.Restored.{
  restored, blackened, restored-black, restored-other, restored-rc, restored-root, restored-nrefs,
  refs-blackened, nrefs-blackened,
}

-- Once `t` is black, no further reference to it does anything.
restore_children-skips :
    (gc : CycleCollector) (work : List Handle) (t : Handle) (cs : List Handle)
    → t + header_size ≤ gc.space.heap.len
    → (color_at gc.space.heap.bytes t == black) ≡ true
    → ((c : Handle) → has c cs ≡ true → c ≡ t)
    → restore_children gc work cs ≡ ok (gc, work)
unfolding restore_children color_of
restore_children-skips gc work t [] inside dark all = refl
restore_children-skips gc work t (c ∷ cs) inside dark all =
    let same : c ≡ t = all c (ground arith) in
    rw (same, color-ok gc.space.heap t inside)
      (rw (◌>>=◌, dark)
        (restore_children-skips gc work t cs inside dark (λ d p. all d (ground arith))))

-- The children of an object, where each of them is `t`, and `t` is not black.
restore_children-once :
    (gc : CycleCollector) (t : Handle) (cs : List Handle)
    → t + header_size ≤ gc.space.heap.len
    → (color_at gc.space.heap.bytes t == black) ≡ false
    → rc_at gc.space.heap.bytes t + 1 < u32_values
    → has t cs ≡ true
    → ((c : Handle) → has c cs ≡ true → c ≡ t)
    → restore_children gc [] cs
      ≡ ok (with_heap gc (write gc.space.heap (restored gc.space.heap.bytes t)), t ∷ [])
unfolding restore_children color_of set_color
restore_children-once gc t [] inside light fits named all = cc
restore_children-once gc t (c ∷ cs) inside light fits named all =
    let hp = gc.space.heap in
    let n = rc_at hp.bytes t in
    let m1 = put32 hp.bytes (t + off_rc) (n + 1) in
    let same : c ≡ t = all c (ground arith) in
    let dark : (color_at (restored hp.bytes t) t == black) ≡ true =
      ap (λ k. k == black) (restored-black hp.bytes t) in
    rw (same, color-ok hp t inside)
      (rw (◌>>=◌, light, rc-ok hp t inside, add32-ok n 1 fits, set_rc-ok hp t inside (n + 1))
        (rw (◌>>=◌, set_color-ok (write hp m1) t inside black)
          (restore_children-skips (with_heap gc (write hp (restored hp.bytes t))) (t ∷ []) t cs
            inside dark (λ d p. all d (ground arith)))))

-- The loop at an object whose children put one object on the work list, which has no children.
restore-leaf :
    (fuel : ℕ) (gc gc' : CycleCollector) (r t : Handle) (cs : List Handle)
    → 2 ≤ fuel
    → children gc r ≡ ok cs
    → restore_children gc [] cs ≡ ok (gc', t ∷ [])
    → children gc' t ≡ ok []
    → restore (suc fuel) gc (r ∷ []) ≡ ok gc'
unfolding restore restore_children unsnoc
restore-leaf zero gc gc' r t cs enough reads turns leaf = absurd (omega arith)
restore-leaf (suc zero) gc gc' r t cs enough reads turns leaf = absurd (omega arith)
restore-leaf (suc (suc fuel)) gc gc' r t cs enough reads turns leaf = rw (reads, turns, leaf) refl

-- Objects without references have no children.
no_refs : (m : Memory) (h : Handle) → nrefs_at m h ≡ 0 → refs_at m h ≡ []
no_refs m h none = ap (λ n. refs_from m h 0 n) none

-- In a heap of objects that refer to each other, `scan_black` at an object `r` whose references, be
-- they one or many, all name one object `t`, where `t` has no references, is not black and has room
-- in its count: it returns, puts one count back on `t`, turns `r` and `t` black and changes nothing
-- else.
pub scan_black-restores_one :
    (gc : CycleCollector) (bs : List Handle) (top : ℕ) (r t : Handle)
    → IsGraph gc.space.heap bs top
    → has r bs ≡ true
    → has t (refs_at gc.space.heap.bytes r) ≡ true
    → ((c : Handle) → has c (refs_at gc.space.heap.bytes r) ≡ true → c ≡ t)
    → nrefs_at gc.space.heap.bytes t ≡ 0
    → (color_at gc.space.heap.bytes t == black) ≡ false
    → rc_at gc.space.heap.bytes t + 1 < u32_values
    → (m : Memory) × (scan_black gc r ≡ ok (with_heap gc (write gc.space.heap m)))
      × (rc_at m t ≡ rc_at gc.space.heap.bytes t + 1)
      × (color_at m t ≡ black)
      × (color_at m r ≡ black)
      × ((x : ℕ)
          → x ≢ r + off_color
          → x ≢ t + off_color
          → (x < t + off_rc) ⊎ (t + off_rc + 4 ≤ x)
          → m x ≡ gc.space.heap.bytes x)
unfolding scan_black set_color children
scan_black-restores_one gc bs top r t g member named all leaf light fits =
    let hp = gc.space.heap in
    let m = hp.bytes in
    let m0 = blackened m r in
    let m3 = restored m0 t in
    let t_in = g.closed r t member named in
    let r_inside = inside_graph g r member in
    let t_inside = inside_graph g t t_in in
    let (_, _, r_block) = Chain-has m bs 0 top r g.chain member in
    let (_, _, t_block) = Chain-has m bs 0 top t g.chain t_in in
    let r_big = r_block.big in
    let t_big = t_block.big in
    let other : t ≢ r = λ e.
      let none : nrefs_at m r ≡ 0 = sym (ap (nrefs_at m) e) ∙ leaf in
      let empty : has t (refs_at m r) ≡ false = ap (has t) (no_refs m r none) in cc in
    let apart : (t + header_size ≤ r) ⊎ (r + header_size ≤ t) =
      ground (arith, Chain-apart m bs 0 top r t g.chain member t_in other) in
    let gc0 : CycleCollector = with_heap gc (write hp m0) in
    let color_kept : color_at m0 t ≡ color_at m t =
      put8-other m (r + off_color) black (t + off_color) (ground arith) in
    let rc_kept : rc_at m0 t ≡ rc_at m t =
      word32-same m m0 (t + off_rc)
        (λ x p q. put8-other m (r + off_color) black x (ground arith)) in
    let turns =
      restore_children-once gc0 t (refs_at m r) (omega arith)
        (ap (λ k. k == black) color_kept ∙ light) (omega (arith, rc_kept, fits)) named all in
    let reads : children gc0 r ≡ ok (refs_at m r) =
      children-refs_at (write hp m0) r (omega (arith, nrefs-blackened m r))
      ∙ ap ok (refs-blackened m r) in
    let gc3 : CycleCollector = with_heap gc (write hp m3) in
    let still_leaf = restored-nrefs m r t apart ∙ leaf in
    let ends : children gc3 t ≡ ok [] =
      children-refs_at (write hp m3) t (omega (arith, still_leaf))
      ∙ ap ok (no_refs m3 t still_leaf) in
    (
      m3,
      rw (set_color-ok hp r (omega arith) black)
          (restore-leaf hp.len gc0 gc3 r t (refs_at m r) (omega arith) reads turns ends),
      restored-rc m0 t (omega (arith, rc_kept, fits)) ∙ omega (arith, rc_kept),
      restored-black m0 t,
      restored-root m r t apart,
      restored-other m r t,
    )
