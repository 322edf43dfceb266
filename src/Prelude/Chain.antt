-- ===== src/Prelude/Chain.antt =====
-- Chains of optional answers, for `do` blocks, and what a chain that answers says of its parts.
use mathlib.Core.Path.{◌≡◌, refl}
use mathlib.Core.Bool.{Bool, true, false}
use mathlib.Core.Option.{Option, none, some}

infixl 5 ◌>>=◌
abbrev pub ◌>>=◌ {ℓ κ} : {A : Type ℓ} {B : Type κ} → Option A → (A → Option B) → Option B
m >>= f = elim m [ none ↦ none | some a ↦ f a ]

pub >>=-eq-some {ℓ κ} :
    {A : Type ℓ} {B : Type κ} (m : Option A) (f : A → Option B) {b : B}
    → (m >>= f) ≡ some b
    → (a : A) × (m ≡ some a) × (f a ≡ some b)
>>=-eq-some none f h = cc
>>=-eq-some (some a) f h = (a, refl, h)

-- `if not b: raise`, and what follows it
abbrev pub require {ℓ} : {A : Type ℓ} → Bool → Option A → Option A
require true rest = rest
require false rest = none

pub require-eq-some {ℓ} :
    {A : Type ℓ} (b : Bool) (rest : Option A) {a : A}
    → require b rest ≡ some a
    → (b ≡ true) × (rest ≡ some a)
require-eq-some true rest h = (refl, h)
require-eq-some false rest h = cc
