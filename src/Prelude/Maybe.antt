-- ===== src/Prelude/Maybe.antt =====
-- Fallible code in the monad of `Option`.
use mathlib.Core.Option
use mathlib.Core.Option.{Option, none, some}
use mathlib.Core.Bool.{Bool, true, false}
use first_os_build.Prelude.Tests.{if◌then◌else◌}
use mathlib.Core.Path.{◌≡◌, refl, subst}

infixl 5 ◌>>=◌ ◌>>◌
abbrev pub ◌>>=◌ {ℓ κ} : {A : Type ℓ} {B : Type κ} → Option A → (A → Option B) → Option B
none >>= f = none
some a >>= f = f a

abbrev pub ◌>>◌ {ℓ κ} : {A : Type ℓ} {B : Type κ} → Option A → Option B → Option B
m >> k = m >>= λ _. k

abbrev pub guard : Bool → Option (Unit {0})
guard true = some tt
guard false = none

pub bind_assoc {ℓ κ κ'} :
    {A : Type ℓ} {B : Type κ} {C : Type κ'} (m : Option A) (f : A → Option B) (g : B → Option C)
    → ((m >>= f) >>= g) ≡ (m >>= λ a. f a >>= g)
bind_assoc none f g = refl
bind_assoc (some a) f g = refl

pub bind-none {ℓ κ} :
    {A : Type ℓ} {B : Type κ} (m : Option A) (f : A → Option B)
    → ((a : A) → f a ≡ none)
    → (m >>= f) ≡ none
bind-none none f h = refl
bind-none (some a) f h = h a

-- A run that ends well, with a result of which `P` holds.
pub data Returns {ℓ κ} {A : Type ℓ} (P : A → Type κ) : Option A → Type (ℓ ⊔ κ) where
  returns : {a : A} → P a → Returns P (some a)

module _ {ℓ κ} {A : Type ℓ} {P : A → Type κ} where
  pub bind {ℓ' κ'} :
      {B : Type ℓ'} {Q : B → Type κ'} {m : Option A} {f : A → Option B}
      → Returns P m
      → ((a : A) → P a → Returns Q (f a))
      → Returns Q (m >>= f)
  bind (returns p) next = next _ p

  -- What any sequel shows of its outcome, the whole run shows.
  pub within {ℓ' κ'} :
      {B : Type ℓ'} (Q : Option B → Type κ') {m : Option A} {f : A → Option B}
      → Returns P m
      → ((a : A) → P a → Q (f a))
      → Q (m >>= f)
  within Q (returns p) next = next _ p

  pub mono {κ'} :
      {Q : A → Type κ'} {m : Option A} → Returns P m → ((a : A) → P a → Q a) → Returns Q m
  mono (returns p) weaken = returns (weaken _ p)

  pub to_sigma : {m : Option A} → Returns P m → (a : A) × (m ≡ some a) × P a
  to_sigma (returns p) = (_, refl, p)

  pub map_lem {ℓ' κ'} :
      {B : Type ℓ'} {Q : B → Type κ'} {m : Option A} (f : A → B)
      → Returns P m
      → ((a : A) → P a → Q (f a))
      → Returns Q (Option.map f m)
  map_lem f (returns p) next = returns (next _ p)

-- Wherever a run ends well, `P` holds of its result.
pub data Ensures {ℓ κ} {A : Type ℓ} (P : A → Type κ) : Option A → Type (ℓ ⊔ κ) where
  fails : Ensures P none
  ensures : {a : A} → P a → Ensures P (some a)

module _ {ℓ κ} {A : Type ℓ} {P : A → Type κ} where
  pub Ensures-bind {ℓ' κ'} :
      {B : Type ℓ'} {Q : B → Type κ'} {m : Option A} {f : A → Option B}
      → Ensures P m
      → ((a : A) → P a → Ensures Q (f a))
      → Ensures Q (m >>= f)
  Ensures-bind fails next = fails
  Ensures-bind (ensures p) next = next _ p

  pub ensured : {a : A} {m : Option A} → Ensures P m → m ≡ some a → P a
  ensured fails e = absurd (cc)
  ensured (ensures {a = b} p) e = subst P (cc) p

  pub Ensures-if :
      {x y : Option A} (b : Bool) → Ensures P x → Ensures P y → Ensures P (if b then x else y)
  Ensures-if true h k = h
  Ensures-if false h k = k

-- Past a run of whose result nothing is known.
pub Ensures-past {ℓ ℓ' κ} :
    {A : Type ℓ} {B : Type ℓ'} {Q : B → Type κ} (m : Option A) {f : A → Option B}
    → ((a : A) → Ensures Q (f a))
    → Ensures Q (m >>= f)
Ensures-past none next = fails
Ensures-past (some a) next = next a

-- What holds of a result, and what holds of any.
pub both {ℓ κ κ'} :
    {A : Type ℓ} {P : A → Type κ} {Q : A → Type κ'} {m : Option A}
    → Returns P m
    → Ensures Q m
    → Returns (λ a. P a × Q a) m
both (returns p) h = returns (p, ensured h refl)
