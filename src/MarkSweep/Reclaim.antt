-- ===== src/MarkSweep/Reclaim.antt =====
-- crates/gc-mod04/src/lib.rs: the two loops of `sweep` give back every object that is not marked.
use gc_united.Base.{
  ℕ, suc, ◌+◌, ◌≤◌, ◌<◌, ◌≡◌, refl, sym, ap, ◌∙◌, inl, inr, arith, true, false, List, [], ◌∷◌, has,
  length, ok, u64_values, Bool-cases, ℕ_discrete, ==-refl, subst,
}
use gc_united.Heap.{Handle, header_size, off_flags, off_size, has_bit, flag_free}
use gc_united.Heap.Words.{SameOn, frame32}
use gc_united.Heap.Views.{size_at, size-ok}
use gc_united.Heap.Chain.{Chain, free_at, Chain-has, Chain-frame}
use gc_united.Space.{FreeListSpace}
use gc_united.Space.Invariant.{IsSpace}
use gc_united.Space.Alloc.{inside_of_has}
use gc_united.Space.Free.{IsReleased, free-IsReleased}
use gc_united.Space.Holes.{IsOrdered}
use gc_united.Stats.Counts.{freed_stats, count_freed-ok}
use gc_united.MarkSweep.{MarkSweep, free_all, reclaim}
use gc_united.MarkSweep.Doomed.{dead_at, dead, dead_bytes, doomed-dead, dead_at-frame, dead-frame}

-- `gc'` is `gc` with the dead objects among the blocks `bs`, which begin at `lo`, given back. The
-- space is well formed over its blocks `all`, what is not dead has kept every byte, and so has the
-- memory below `lo`.
pub record IsReclaimed (gc gc' : MarkSweep) (all bs : List Handle) (lo : ℕ) : Type 0 where
  pub space : IsSpace gc'.space all
  pub freed :
      (b : Handle)
      → has b bs ≡ true
      → dead_at gc.space.heap.bytes b ≡ true
      → free_at gc'.space.heap.bytes b ≡ true
  pub kept :
      (b : Handle)
      → has b bs ≡ true
      → dead_at gc.space.heap.bytes b ≡ false
      → SameOn b (b + size_at gc.space.heap.bytes b) gc.space.heap.bytes gc'.space.heap.bytes
  pub below : (x : ℕ) → x < lo → gc'.space.heap.bytes x ≡ gc.space.heap.bytes x
  pub used : gc'.space.used + dead_bytes gc.space.heap.bytes bs ≡ gc.space.used
  pub ordered : IsOrdered gc.space → IsOrdered gc'.space
  pub objects :
      gc'.stats.objects_freed ≡ gc.stats.objects_freed + length (dead gc.space.heap.bytes bs)
  pub bytes : gc'.stats.bytes_freed ≡ gc.stats.bytes_freed + dead_bytes gc.space.heap.bytes bs

-- One more block, which is not dead.
skip-IsReclaimed :
    {gc gc' : MarkSweep} {all : List Handle} (b : Handle) (bs : List Handle)
    → header_size ≤ size_at gc.space.heap.bytes b
    → dead_at gc.space.heap.bytes b ≡ false
    → IsReclaimed gc gc' all bs (b + size_at gc.space.heap.bytes b)
    → IsReclaimed gc gc' all (b ∷ bs) b
skip-IsReclaimed {gc} b bs big alive later = record {
  space = later.space;
  freed = λ c mem is_dead. elim (ℕ_discrete c b) [
    | yes same ↦ cc
    | no other ↦ later.freed c (ground arith) is_dead
  ];
  kept = λ c mem is_alive. elim (ℕ_discrete c b) [
    | yes same ↦ rw same (λ x lo hi. later.below x hi)
    | no other ↦ later.kept c (ground arith) is_alive
  ];
  below = λ x h. later.below x (omega arith);
  used = rw alive (omega (arith, later.used));
  ordered = later.ordered;
  objects = rw alive later.objects;
  bytes = rw alive (omega (arith, later.bytes));
}

-- The collector once the dead object `b` is given back, with the space `s`.
abbrev after_one : MarkSweep → FreeListSpace → Handle → MarkSweep
after_one gc s b = record gc {
  space = s;
  stats = freed_stats gc.stats (size_at gc.space.heap.bytes b);
}

-- One more block, which is dead and given back first.
drop-IsReclaimed :
    {gc gc' : MarkSweep} {all : List Handle} (s : FreeListSpace) (b : Handle) (bs : List Handle)
    (hi : ℕ)
    → header_size ≤ size_at gc.space.heap.bytes b
    → dead_at gc.space.heap.bytes b ≡ true
    → IsReleased gc.space s all b
    → Chain gc.space.heap.bytes (b + size_at gc.space.heap.bytes b) bs hi
    → IsReclaimed (after_one gc s b) gc' all bs (b + size_at gc.space.heap.bytes b)
    → IsReclaimed gc gc' all (b ∷ bs) b
drop-IsReclaimed {gc} {gc'} s b bs hi big is_dead rel c later =
    let m = gc.space.heap.bytes in
    let n = size_at m b in
    let out = rel.block.outside in
    let (list, total) = dead-frame out bs (b + n) hi (omega arith) c in
    let behind : (d : Handle) → has d bs ≡ true → b + n ≤ d =
      λ d mem. (Chain-has m bs (b + n) hi d c mem).0 in
    record {
      space = later.space;
      freed = λ d mem dead_d. elim (ℕ_discrete d b) [
        | yes same ↦ rw same (
            ap (λ f. has_bit f flag_free) (later.below (b + off_flags) (omega arith))
            ∙ rel.block.freed)
        | no other ↦
            let in_rest : has d bs ≡ true = ground arith in
            later.freed d in_rest (dead_at-frame out d (behind d in_rest) ∙ dead_d)
      ];
      kept = λ d mem alive. elim (ℕ_discrete d b) [
        | yes same ↦ cc
        | no other ↦
            let in_rest : has d bs ≡ true = ground arith in
            let le = behind d in_rest in
            let sized : size_at s.heap.bytes d ≡ size_at m d =
              frame32 out (d + off_size) (inr (omega arith)) in
            λ x lo up.
              later.kept d in_rest (dead_at-frame out d le ∙ alive) x lo (omega (arith, sized))
              ∙ out x (inr (omega arith))
      ];
      below = λ x h. later.below x (omega arith) ∙ out x (inl h);
      used = rw is_dead (omega (arith, later.used, total, rel.used));
      ordered = λ _. later.ordered (λ sorted. let unsorted = rel.unsorted in cc);
      objects = rw is_dead (omega (arith, later.objects, ap length list));
      bytes = rw is_dead (omega (arith, later.bytes, total));
    }

free_all-IsReclaimed :
    (all : List Handle) (gc : MarkSweep) (bs : List Handle) (lo hi : ℕ)
    → IsSpace gc.space all
    → Chain gc.space.heap.bytes lo bs hi
    → ((b : Handle) → has b bs ≡ true → has b all ≡ true)
    → gc.stats.objects_freed + length (dead gc.space.heap.bytes bs) < u64_values
    → gc.stats.bytes_freed + dead_bytes gc.space.heap.bytes bs < u64_values
    → (gc' : MarkSweep) × (free_all gc (dead gc.space.heap.bytes bs) ≡ ok gc')
      × IsReclaimed gc gc' all bs lo
unfolding free_all
free_all-IsReclaimed all gc [] lo hi is c sub few small = (
  gc,
  refl,
  record {
    space = is;
    freed = λ b mem d. cc;
    kept = λ b mem d. cc;
    below = λ x h. refl;
    used = omega arith;
    ordered = λ o. o;
    objects = omega arith;
    bytes = omega arith;
  },
)
free_all-IsReclaimed all gc (b ∷ bs) lo hi is (e, block, c) sub few small =
    let m = gc.space.heap.bytes in
    let n = size_at m b in
    elim (Bool-cases (dead_at m b)) [
      | inr alive ↦
          let list : dead m (b ∷ bs) ≡ dead m bs = rw alive refl in
          let total : dead_bytes m (b ∷ bs) ≡ dead_bytes m bs = rw alive (omega arith) in
          let (gc', runs, later) =
            free_all-IsReclaimed all gc bs (b + n) hi is c (λ d mem. sub d (ground arith))
              (omega (arith, few, ap length list)) (omega (arith, small, total)) in
          (
            gc',
            ap (free_all gc) list ∙ runs,
            subst (IsReclaimed gc gc' all (b ∷ bs)) e (skip-IsReclaimed b bs block.big alive later),
          )
      | inl is_dead ↦
          let list : dead m (b ∷ bs) ≡ b ∷ dead m bs = rw is_dead refl in
          let total : dead_bytes m (b ∷ bs) ≡ n + dead_bytes m bs = rw is_dead refl in
          let in_all = sub b (rw ==-refl refl) in
          let live : free_at m b ≡ false = ground arith in
          let (s, frees, rel) = free-IsReleased gc.space all b is in_all live in
          let out = rel.block.outside in
          let (dead_same, bytes_same) = dead-frame out bs (b + n) hi (omega arith) c in
          let (_, inside, _) = inside_of_has is b in_all in
          let big = block.big in
          let within = is.within in
          let counts =
            count_freed-ok gc.stats n (omega (arith, few, ap length list))
              (omega (arith, small, total)) in
          let (gc', runs, later) =
            free_all-IsReclaimed all (after_one gc s b) bs (b + n) hi rel.space
              (Chain-frame out bs (b + n) hi (inr (omega arith)) c) (λ d mem. sub d (ground arith))
              (omega (arith, few, ap length list, ap length dead_same))
              (omega (arith, small, total, bytes_same)) in
          (
            gc',
            ap (free_all gc) list
                ∙ rw (size-ok gc.space.heap b (omega arith), frees, counts)
                    (ap (free_all (after_one gc s b)) (sym dead_same) ∙ runs),
            subst (IsReclaimed gc gc' all (b ∷ bs)) e
                (drop-IsReclaimed s b bs hi block.big is_dead rel c later),
          )
    ]

-- Over a well-formed space, and with counters that have room for what is freed, the two loops of
-- `sweep` return. Every object that is not marked is free afterwards, every other block has kept all
-- its bytes, and the counters and `used` agree with what was freed.
pub reclaim-IsReclaimed :
    (gc : MarkSweep) (bs : List Handle)
    → IsSpace gc.space bs
    → gc.stats.objects_freed + length (dead gc.space.heap.bytes bs) < u64_values
    → gc.stats.bytes_freed + dead_bytes gc.space.heap.bytes bs < u64_values
    → (gc' : MarkSweep) × (reclaim gc ≡ ok gc') × IsReclaimed gc gc' bs bs 0
unfolding reclaim
reclaim-IsReclaimed gc bs is few small =
    let addressable = is.addressable in
    let finds =
      doomed-dead (suc gc.space.bump) gc.space bs 0 is.chain is.within (omega arith)
        (omega arith) in
    let (gc', runs, done) =
      free_all-IsReclaimed bs gc bs 0 gc.space.bump is is.chain (λ b mem. mem) few small in
    (gc', rw (finds, runs), done)
