-- ===== src/Scheduler/Panic.antt =====
-- Calls of mujina-miner/src/scheduler.rs that may panic: `none` is a panic.
use mujina.Common.{
  ◌≡◌, refl, ap, Option, none, some, Bool, true, false, if◌then◌else◌, ◌⊎◌, inl, inr,
}

infixl 5 ◌>>=◌
abbrev pub ◌>>=◌ {ℓ κ} : {A : Type ℓ} {B : Type κ} → Option A → (A → Option B) → Option B
none >>= f = none
some a >>= f = f a

-- A chain that does not panic, taken apart.
pub >>=-some {ℓ κ} :
    {A : Type ℓ} {B : Type κ} (m : Option A) (f : A → Option B) {b : B}
    → (m >>= f) ≡ some b
    → (a : A) × (m ≡ some a) × (f a ≡ some b)
>>=-some none f h = cc
>>=-some (some a) f h = (a, refl, h)

pub some_is {ℓ} : {A : Type ℓ} {a b : A} → some a ≡ some b → a ≡ b
some_is h = cc

-- Of a choice, the branch taken.
pub if_some {ℓ} :
    {A : Type ℓ} (b : Bool) {x y : Option A} {a : A}
    → (if b then x else y) ≡ some a
    → ((b ≡ true) × (x ≡ some a)) ⊎ ((b ≡ false) × (y ≡ some a))
if_some true h = inl (refl, h)
if_some false h = inr (refl, h)

-- A chain whose first call succeeds.
pub >>=-found {ℓ κ} :
    {A : Type ℓ} {B : Type κ} (m : Option A) (f : A → Option B) {a : A}
    → m ≡ some a
    → (m >>= f) ≡ f a
>>=-found m f e = ap (λ o. o >>= f) e
