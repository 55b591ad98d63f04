-- ===== src/Prelude/Results.antt =====
-- `Result<A, E>`, with `?` as bind.
use mathlib.Core.Path.{◌≡◌, refl}
use mathlib.Core.Logic.{◌⊎◌, inl, inr}
use mathlib.Core.Option.{Option, none, some}
use native.Mathlib.Omega.{arith}
use mathlib.Core.Bool.{Bool, true, false}

pub data Result {ℓ} (E A : Type ℓ) : Type ℓ where
  ok : A → Result E A
  err : E → Result E A

infixl 5 ◌>>=◌ ◌>>◌
abbrev pub ◌>>=◌ {ℓ} : {E A B : Type ℓ} → Result E A → (A → Result E B) → Result E B
ok a >>= f = f a
err e >>= f = err e

abbrev pub ◌>>◌ {ℓ} : {E A B : Type ℓ} → Result E A → Result E B → Result E B
m >> k = m >>= λ _. k

-- `bail!` under a test
abbrev pub bail_if : {E : Type 0} → Bool → E → Result E (Unit {0})
bail_if true e = err e
bail_if false e = ok tt

-- `Option::context`, `Option::ok_or`
abbrev pub context {ℓ} : {E A : Type ℓ} → Option A → E → Result E A
context none e = err e
context (some a) e = ok a

pub Result-cases {ℓ} :
    {E A : Type ℓ} (r : Result E A) → ((e : E) × (r ≡ err e)) ⊎ ((a : A) × (r ≡ ok a))
Result-cases (ok a) = inr (a, refl)
Result-cases (err e) = inl (e, refl)

-- Both parts of a chain that succeeds have succeeded.
pub >>-ok : {E : Type 0} (m k : Result E (Unit {0})) → (m >> k) ≡ ok tt → (m ≡ ok tt) × (k ≡ ok tt)
>>-ok (ok tt) k h = (refl, h)
>>-ok (err e) k h = cc

-- What is kept beside a result is that result.
pub beside-ok :
    {E A B : Type 0} (r : Result E A) (b c : B) (a : A)
    → ◌>>=◌ {B = B × A} r (λ x. ok (b, x)) ≡ ok (c, a)
    → r ≡ ok a
beside-ok (ok x) b c a h = ground arith
beside-ok (err e) b c a h = cc

-- A chain succeeds only if its first part does.
pub >>=-ok :
    {E A B : Type 0} (m : Result E A) (f : A → Result E B) (b : B)
    → (m >>= f) ≡ ok b
    → (a : A) × (m ≡ ok a) × (f a ≡ ok b)
>>=-ok (ok a) f b h = (a, refl, h)
>>=-ok (err e) f b h = cc

pub context-some : {E A : Type 0} (o : Option A) (e : E) (a : A) → context o e ≡ ok a → o ≡ some a
context-some none e a h = cc
context-some (some x) e a h = ground arith

pub ok-pair :
    {E A B : Type 0} (a b : A) (c d : B)
    → Path (Result E (A × B)) (ok (a, c)) (ok (b, d))
    → (a ≡ b) × (c ≡ d)
ok-pair a b c d h = (ground arith, ground arith)

pub ok-injective : {E A : Type 0} (a b : A) → Path (Result E A) (ok a) (ok b) → a ≡ b
ok-injective a b h = ground arith
