-- ===== src/Heap/Words.antt =====
-- Words of a memory: what a write leaves at the other addresses, and round trips.
use gc_united.Base.{ℕ, ◌+◌, ◌-◌, ◌/◌, ◌%◌, ◌^◌, ◌≤◌, ◌<◌, ◌≡◌, ◌⊎◌, inl, arith, ◌∙◌}
use gc_united.Heap.Arena.{Memory, word16, word32, word64, put8, put16, put32, put64, fill, copy}

-- `m'` agrees with `m` outside `[lo, hi)`.
abbrev pub SameOutside : ℕ → ℕ → Memory → Memory → Type 0
SameOutside lo hi m m' = (x : ℕ) → (x < lo) ⊎ (hi ≤ x) → m' x ≡ m x

-- `m'` agrees with `m` on `[lo, hi)`.
abbrev pub SameOn : ℕ → ℕ → Memory → Memory → Type 0
SameOn lo hi m m' = (x : ℕ) → lo ≤ x → x < hi → m' x ≡ m x

abbrev pub IsBytes : Memory → Type 0
IsBytes m = (x : ℕ) → m x < 256

pub word16-put16 : (m : Memory) (a v : ℕ) → word16 (put16 m a v) a ≡ v % 2 ^ 16
unfolding word16 put16
word16-put16 m a v = ground arith

pub word32-put32 : (m : Memory) (a v : ℕ) → word32 (put32 m a v) a ≡ v % 2 ^ 32
unfolding word32 put32
word32-put32 m a v = ground arith

pub word16-lt : (m : Memory) (a : ℕ) → IsBytes m → word16 m a < 2 ^ 16
unfolding word16
word16-lt m a b = omega (arith, b a, b (a + 1))

pub word32-lt : (m : Memory) (a : ℕ) → IsBytes m → word32 m a < 2 ^ 32
unfolding word32
word32-lt m a b = omega (arith, b a, b (a + 1), b (a + 2), b (a + 3))

module _ (m : Memory) (a v x : ℕ) where
  pub put8-other : (x < a) ⊎ (a + 1 ≤ x) → put8 m a v x ≡ m x
  unfolding put8
  put8-other h = ground arith

  pub put16-other : (x < a) ⊎ (a + 2 ≤ x) → put16 m a v x ≡ m x
  unfolding put16
  put16-other h = ground arith

  pub put32-other : (x < a) ⊎ (a + 4 ≤ x) → put32 m a v x ≡ m x
  unfolding put32
  put32-other h = ground arith

pub put8_self : (m : Memory) (a v : ℕ) → put8 m a v a ≡ v % 256
unfolding put8
put8_self m a v = ground arith

module _ (m m' : Memory) (a : ℕ) where
  pub word16-same : SameOn a (a + 2) m m' → word16 m' a ≡ word16 m a
  unfolding word16
  word16-same s = ground (arith, s a, s (a + 1))

  pub word32-same : SameOn a (a + 4) m m' → word32 m' a ≡ word32 m a
  unfolding word32
  word32-same s = ground (arith, s a, s (a + 1), s (a + 2), s (a + 3))

pub word32-put32_other :
    (m : Memory) (a b v : ℕ) → (b + 4 ≤ a) ⊎ (a + 4 ≤ b) → word32 (put32 m a v) b ≡ word32 m b
word32-put32_other m a b v h =
    word32-same m (put32 m a v) b (λ x p q. put32-other m a v x (ground arith))

pub IsBytes-put8 : (m : Memory) (a v : ℕ) → IsBytes m → IsBytes (put8 m a v)
unfolding put8
IsBytes-put8 m a v b x = ground (arith, b x)

pub IsBytes-put16 : (m : Memory) (a v : ℕ) → IsBytes m → IsBytes (put16 m a v)
unfolding put16
IsBytes-put16 m a v b x = ground (arith, b x)

pub IsBytes-put32 : (m : Memory) (a v : ℕ) → IsBytes m → IsBytes (put32 m a v)
unfolding put32
IsBytes-put32 m a v b x = ground (arith, b x)

pub IsBytes-fill : (m : Memory) (s e v : ℕ) → v < 256 → IsBytes m → IsBytes (fill m s e v)
unfolding fill
IsBytes-fill m s e v h b x = ground (arith, b x)

pub word64-put64 : (m : Memory) (a v : ℕ) → v < 2 ^ 64 → word64 (put64 m a v) a ≡ v
unfolding word64 put64
word64-put64 m a v h = omega (
  arith,
  word32-put32_other (put32 m a v) (a + 4) a (v / 2 ^ 32) (inl (omega arith)),
  word32-put32 m a v,
  word32-put32 (put32 m a v) (a + 4) (v / 2 ^ 32),
)

-- Frames: what a change confined to `[lo, hi)` leaves alone.
module _ {m m' : Memory} {lo hi : ℕ} (s : SameOutside lo hi m m') where
  pub frame16 : (b : ℕ) → (b + 2 ≤ lo) ⊎ (hi ≤ b) → word16 m' b ≡ word16 m b
  frame16 b h = word16-same m m' b (λ x p q. s x (ground arith))

  pub frame32 : (b : ℕ) → (b + 4 ≤ lo) ⊎ (hi ≤ b) → word32 m' b ≡ word32 m b
  frame32 b h = word32-same m m' b (λ x p q. s x (ground arith))

  pub SameOutside-wider : (lo' hi' : ℕ) → lo' ≤ lo → hi ≤ hi' → SameOutside lo' hi' m m'
  SameOutside-wider lo' hi' p q x h = s x (ground arith)

  pub SameOutside-trans : {m'' : Memory} → SameOutside lo hi m' m'' → SameOutside lo hi m m''
  SameOutside-trans t x h = t x h ∙ s x h

module _ (m : Memory) (a v lo hi : ℕ) where
  pub put8-SameOutside : lo ≤ a → a + 1 ≤ hi → SameOutside lo hi m (put8 m a v)
  put8-SameOutside p q x h = put8-other m a v x (ground arith)

  pub put16-SameOutside : lo ≤ a → a + 2 ≤ hi → SameOutside lo hi m (put16 m a v)
  put16-SameOutside p q x h = put16-other m a v x (ground arith)

  pub put32-SameOutside : lo ≤ a → a + 4 ≤ hi → SameOutside lo hi m (put32 m a v)
  put32-SameOutside p q x h = put32-other m a v x (ground arith)

pub fill-SameOutside :
    (m : Memory) (s e v lo hi : ℕ) → lo ≤ s → e ≤ hi → SameOutside lo hi m (fill m s e v)
unfolding fill
fill-SameOutside m s e v lo hi p q x h = ground arith

pub copy-SameOutside : (m : Memory) (from n to : ℕ) → SameOutside to (to + n) m (copy m from n to)
unfolding copy
copy-SameOutside m from n to x h = ground arith

pub fill-inside : (m : Memory) (s e v x : ℕ) → s ≤ x → x < e → fill m s e v x ≡ v
unfolding fill
fill-inside m s e v x p q = ground arith

pub copy-inside : (m : Memory) (from n to i : ℕ) → i < n → copy m from n to (to + i) ≡ m (from + i)
unfolding copy
copy-inside m from n to i h = let e : to + i - to ≡ i = omega arith in rw e (ground arith)
