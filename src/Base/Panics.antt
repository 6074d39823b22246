-- ===== src/Base/Panics.antt =====
-- What a run of Rust code comes to: a value, or a panic. Arithmetic on `u32` and `u64` is that of
-- the profile in which the repository's tests run: overflow panics.
use Prim.Native.Nat.{ℕ, ◌+◌, ◌-◌, ◌*◌, ◌^◌, ◌≤◌, ◌<◌}
use mathlib.Core.Path.{◌≡◌, refl, ap}
use mathlib.Core.Logic.{◌⊎◌, inl, inr}
use mathlib.Core.Bool.{Bool, true, false}
use gc_united.Base.Tests.{leb, ltb, if◌then◌else◌, le→leb, lt→ltb}

pub data Exec {ℓ} (A : Type ℓ) : Type ℓ where
  ok : A → Exec A
  panic : Exec A

infixl 5 ◌>>=◌ ◌>>◌
abbrev pub ◌>>=◌ {ℓ κ} : {A : Type ℓ} {B : Type κ} → Exec A → (A → Exec B) → Exec B
ok a >>= f = f a
panic >>= f = panic

abbrev pub ◌>>◌ {ℓ} : {B : Type ℓ} → Exec (Unit {0}) → Exec B → Exec B
m >> k = m >>= λ _. k

-- `assert!`
abbrev pub assert : Bool → Exec (Unit {0})
assert true = ok tt
assert false = panic

-- The second factor is the number of values that the type has.
abbrev pub checked : ℕ → ℕ → Exec ℕ
checked bound n = if ltb n bound then ok n else panic

abbrev pub u32_values : ℕ
u32_values = 2 ^ 32

abbrev pub u64_values : ℕ
u64_values = 2 ^ 64

unfoldable pub add32 : ℕ → ℕ → Exec ℕ
add32 a b = checked u32_values (a + b)

unfoldable pub mul32 : ℕ → ℕ → Exec ℕ
mul32 a b = checked u32_values (a * b)

unfoldable pub add64 : ℕ → ℕ → Exec ℕ
add64 a b = checked u64_values (a + b)

-- Unsigned subtraction, at any width.
unfoldable pub sub_checked : ℕ → ℕ → Exec ℕ
sub_checked a b = if leb b a then ok (a - b) else panic

checked-ok : (bound n : ℕ) → n < bound → checked bound n ≡ ok n
checked-ok bound n h = rw (lt→ltb n bound h)

pub add32-ok : (a b : ℕ) → a + b < u32_values → add32 a b ≡ ok (a + b)
unfolding add32
add32-ok a b h = checked-ok u32_values (a + b) h

pub add64-ok : (a b : ℕ) → a + b < u64_values → add64 a b ≡ ok (a + b)
unfolding add64
add64-ok a b h = checked-ok u64_values (a + b) h

pub sub_checked-ok : (a b : ℕ) → b ≤ a → sub_checked a b ≡ ok (a - b)
unfolding sub_checked
sub_checked-ok a b h = rw (le→leb b a h)

-- A sequence that returns is two that return.
pub bind-ok {ℓ κ} :
    {A : Type ℓ} {B : Type κ} (m : Exec A) (f : A → Exec B) {b : B}
    → (m >>= f) ≡ ok b
    → (a : A) × (m ≡ ok a) × (f a ≡ ok b)
bind-ok (ok a) f e = (a, refl, e)
bind-ok panic f e = cc

pub ok-inj {ℓ} : {A : Type ℓ} {a b : A} → ok a ≡ ok b → a ≡ b
ok-inj {A} {a} e = ap (λ m. elim m as (λ _. A) [ ok x ↦ x | panic ↦ a ]) e

pub Exec-cases {ℓ} : {A : Type ℓ} (m : Exec A) → (m ≡ panic) ⊎ ((a : A) × (m ≡ ok a))
Exec-cases panic = inl refl
Exec-cases (ok a) = inr (a, refl)
