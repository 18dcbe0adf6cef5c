-- ===== src/Common/Checked.antt =====
-- The `{ ok: true, ... } | { ok: false, reason }` results of the source, as a monad.
use mathlib.Core.Path.{◌≡◌, refl}
use mathlib.Core.Bool.{Bool, true, false}
use mathlib.Core.Option.{Option, none, some}
use mathlib.Core.Logic.{◌⊎◌, inl, inr}
use Prim.Native.String.{String}

pub data Checked {ℓ} (A : Type ℓ) : Type ℓ where
  accepted : A → Checked A
  refused : String → Checked A

infixl 5 ◌>>=◌ ◌>>◌
abbrev pub ◌>>=◌ {ℓ κ} : {A : Type ℓ} {B : Type κ} → Checked A → (A → Checked B) → Checked B
accepted a >>= f = f a
refused r >>= f = refused r

abbrev pub ◌>>◌ {ℓ} : {B : Type ℓ} → Checked (Unit {0}) → Checked B → Checked B
m >> k = m >>= λ _. k

-- `if (!test) return { ok: false, reason }`
abbrev pub demand : Bool → String → Checked (Unit {0})
demand true r = accepted tt
demand false r = refused r

abbrev pub demand_some {ℓ} : {A : Type ℓ} → Option A → String → Checked A
demand_some none r = refused r
demand_some (some a) r = accepted a

pub Checked-cases {ℓ} :
    {A : Type ℓ} (m : Checked A) → ((r : String) × (m ≡ refused r)) ⊎ ((a : A) × (m ≡ accepted a))
Checked-cases (accepted a) = inr (a, refl)
Checked-cases (refused r) = inl (r, refl)

-- What a `do` block that was accepted says about its first step.
pub >>=-eq-accepted {ℓ κ} :
    {A : Type ℓ} {B : Type κ} (m : Checked A) (f : A → Checked B) {b : B}
    → (m >>= f) ≡ accepted b
    → (a : A) × (m ≡ accepted a) × (f a ≡ accepted b)
>>=-eq-accepted (accepted a) f h = (a, refl, h)
>>=-eq-accepted (refused r) f h = cc
