-- ===== src/Prelude/Outcome.antt =====
-- What a C++ operation can come to: a value, an access outside a block, a read of a byte that was
-- never written or an access through a null pointer (undefined behaviour all three), or an
-- exception of `new`.
use Prim.Native.Nat.{ℕ, ◌+◌, ◌-◌, ◌%◌, ◌^◌}
use mathlib.Core.Path.{◌≡◌, refl}
use mathlib.Core.Option
use mathlib.Core.Option.{Option, none, some}

pub data Error : Type 0 where
  out_of_bounds uninitialised null_pointer bad_alloc : Error

pub data Outcome {ℓ} (A : Type ℓ) : Type ℓ where
  ok : A → Outcome A
  err : Error → Outcome A

infixl 5 ◌>>=◌
abbrev pub ◌>>=◌ {ℓ κ} : {A : Type ℓ} {B : Type κ} → Outcome A → (A → Outcome B) → Outcome B
err e >>= next = err e
ok x >>= next = next x

-- `size_t` arithmetic, on 64 bits.
abbrev pub add64 : ℕ → ℕ → ℕ
add64 a b = (a + b) % 2 ^ 64

abbrev pub sub64 : ℕ → ℕ → ℕ
sub64 a b = (a + 2 ^ 64 - b) % 2 ^ 64

-- A chain that succeeds did so at each step.
pub >>=-eq-ok {ℓ κ} :
    {A : Type ℓ} {B : Type κ} (first : Outcome A) (next : A → Outcome B) {result : B}
    → first >>= next ≡ ok result
    → (x : A) × (first ≡ ok x) × (next x ≡ ok result)
>>=-eq-ok (err e) next stopped = cc
>>=-eq-ok (ok x) next went_on = (x, refl, went_on)

-- What holds of the value, if there is one.
abbrev pub WhenOk {ℓ κ} : {A : Type ℓ} → (A → Type κ) → Outcome A → Type κ
WhenOk P (err e) = Unit
WhenOk P (ok x) = P x

pub WhenOk->>= {ℓ κ μ ν} :
    {A : Type ℓ} {B : Type κ} {P : A → Type μ} (Q : B → Type ν) (o : Outcome A)
    (next : A → Outcome B)
    → WhenOk P o
    → ((x : A) → P x → WhenOk Q (next x))
    → WhenOk Q (o >>= next)
WhenOk->>= Q (err e) next h f = tt
WhenOk->>= Q (ok x) next h f = f x h

-- What holds of the value of a run, if it ends and there is one.
abbrev pub WhenDone {ℓ κ} : {A : Type ℓ} → (A → Type κ) → Option (Outcome A) → Type κ
WhenDone P none = Unit
WhenDone P (some o) = WhenOk P o

pub WhenDone-map {ℓ κ μ ν} :
    {A : Type ℓ} {B : Type κ} {P : A → Type μ} (Q : B → Type ν) (o : Option (Outcome A))
    (next : A → Outcome B)
    → WhenDone P o
    → ((x : A) → P x → WhenOk Q (next x))
    → WhenDone Q (Option.map (λ r. r >>= next) o)
WhenDone-map Q none next h f = tt
WhenDone-map Q (some o) next h f = WhenOk->>= Q o next h f

pub WhenOk-vacuous {ℓ} : {A : Type ℓ} (o : Outcome A) → WhenOk (λ x. Unit {0}) o
WhenOk-vacuous (err e) = tt
WhenOk-vacuous (ok x) = tt

pub WhenDone-vacuous {ℓ} : {A : Type ℓ} (o : Option (Outcome A)) → WhenDone (λ x. Unit {0}) o
WhenDone-vacuous none = tt
WhenDone-vacuous (some o) = WhenOk-vacuous o

pub WhenOk-mono {ℓ κ μ} :
    {A : Type ℓ} (P : A → Type κ) (Q : A → Type μ) (o : Outcome A)
    → ((x : A) → P x → Q x)
    → WhenOk P o
    → WhenOk Q o
WhenOk-mono P Q (err e) f h = tt
WhenOk-mono P Q (ok x) f h = f x h

pub WhenOk-both {ℓ κ μ} :
    {A : Type ℓ} (P : A → Type κ) (Q : A → Type μ) (o : Outcome A)
    → WhenOk P o
    → WhenOk Q o
    → WhenOk (λ x. P x × Q x) o
WhenOk-both P Q (err e) h k = tt
WhenOk-both P Q (ok x) h k = (h, k)

pub WhenOk-itself {ℓ} : {A : Type ℓ} (o : Outcome A) → WhenOk (λ x. some o ≡ some (ok x)) o
WhenOk-itself (err e) = tt
WhenOk-itself (ok x) = refl

pub WhenDone-itself {ℓ} : {A : Type ℓ} (o : Option (Outcome A)) → WhenDone (λ x. o ≡ some (ok x)) o
WhenDone-itself none = tt
WhenDone-itself (some o) = WhenOk-itself o
