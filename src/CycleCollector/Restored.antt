-- ===== src/CycleCollector/Restored.antt =====
-- crates/gc-mod03/src/lib.rs: the memory that `scan_black` leaves.
use gc_united.Base.{
  ℕ, zero, suc, ◌+◌, ◌*◌, ◌≤◌, ◌<◌, ◌≡◌, ◌≢◌, ◌⊎◌, refl, ◌∙◌, inl, inr, arith, u32_values,
}
use gc_united.Heap.{Memory, Handle, header_size, off_color, off_rc, off_nrefs, put8, put32}
use gc_united.Heap.Words.{
  word32-put32, put8_self, put8-other, put32-other, put8-SameOutside, frame32, word32-same,
  word16-same,
}
use gc_united.Heap.Views.{rc_at, color_at, nrefs_at, slot_at}
use gc_united.Marking.Graph.{refs_at, refs_from}
use gc_united.CycleCollector.{black}

-- The memory after `t` has got its count back.
abbrev pub restored : Memory → Handle → Memory
restored m t = put8 (put32 m (t + off_rc) (rc_at m t + 1)) (t + off_color) black

pub restored-black : (m : Memory) (t : Handle) → color_at (restored m t) t ≡ black
restored-black m t = put8_self (put32 m (t + off_rc) (rc_at m t + 1)) (t + off_color) black

abbrev pub blackened : Memory → Handle → Memory
blackened m r = put8 m (r + off_color) black

-- A colour leaves the references of its object alone.
refs_from-blackened : (m : Memory) (r i n : ℕ) → refs_from (blackened m r) r i n ≡ refs_from m r i n
refs_from-blackened m r i zero = refl
refs_from-blackened m r i (suc n) =
    let same : slot_at (blackened m r) r i ≡ slot_at m r i =
      word32-same m (blackened m r) (r + header_size + 4 * i)
        (λ x p q. put8-other m (r + off_color) black x (inr (omega arith))) in
    rw (same, refs_from-blackened m r (suc i) n) refl

pub nrefs-blackened : (m : Memory) (r : ℕ) → nrefs_at (blackened m r) r ≡ nrefs_at m r
nrefs-blackened m r =
    word16-same m (blackened m r) (r + off_nrefs)
      (λ x p q. put8-other m (r + off_color) black x (inl (omega arith)))

pub refs-blackened : (m : Memory) (r : ℕ) → refs_at (blackened m r) r ≡ refs_at m r
refs-blackened m r = rw (nrefs-blackened m r) (refs_from-blackened m r 0 (nrefs_at m r))

-- The memory that `scan_black` leaves, at a byte that is none of the three it writes to.
pub restored-other :
    (m : Memory) (r t x : ℕ)
    → x ≢ r + off_color
    → x ≢ t + off_color
    → (x < t + off_rc) ⊎ (t + off_rc + 4 ≤ x)
    → restored (blackened m r) t x ≡ m x
restored-other m r t x not_r not_t outside =
    let m0 = blackened m r in
    put8-other (put32 m0 (t + off_rc) (rc_at m0 t + 1)) (t + off_color) black x (ground arith)
    ∙ put32-other m0 (t + off_rc) (rc_at m0 t + 1) x outside
    ∙ put8-other m (r + off_color) black x (ground arith)

-- The count of `t` in that memory.
pub restored-rc :
    (m : Memory) (t : ℕ) → rc_at m t + 1 < u32_values → rc_at (restored m t) t ≡ rc_at m t + 1
restored-rc m t fits =
    let m1 = put32 m (t + off_rc) (rc_at m t + 1) in
    frame32
      (put8-SameOutside m1 (t + off_color) black (t + off_color) (t + off_color + 1) (omega arith)
        (omega arith))
      (t + off_rc) (inr (omega arith))
    ∙ word32-put32 m (t + off_rc) (rc_at m t + 1)
    ∙ omega (arith, fits)

-- The first object, and the slot count of the second, where the two headers do not meet.
module _ (m : Memory) (r t : Handle) (apart : (t + header_size ≤ r) ⊎ (r + header_size ≤ t)) where
  pub restored-root : color_at (restored (blackened m r) t) r ≡ black
  restored-root =
      let m0 = blackened m r in
      put8-other (put32 m0 (t + off_rc) (rc_at m0 t + 1)) (t + off_color) black (r + off_color)
        (ground arith)
      ∙ put32-other m0 (t + off_rc) (rc_at m0 t + 1) (r + off_color) (ground arith)
      ∙ put8_self m (r + off_color) black

  pub restored-nrefs : nrefs_at (restored (blackened m r) t) t ≡ nrefs_at m t
  restored-nrefs =
      word16-same m (restored (blackened m r) t) (t + off_nrefs)
        (λ x p q. restored-other m r t x (λ e. ground arith) (λ e. omega arith) (inl (omega arith)))
