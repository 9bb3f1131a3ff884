-- ===== src/Base/Outcomes.antt =====
-- A call that returns `Result` and may panic on the way.
use Prim.Native.Nat.{ℕ, ◌+◌}
use mathlib.Core.Path.{◌≡◌, refl, ap}
use mathlib.Core.Bool.{Bool, true, false}
use mathlib.Core.Option.{Option, none, some}
use astesia.Base.Tests.{ltb, if◌then◌else◌}

pub data Outcome {ℓ κ} (E : Type ℓ) (A : Type κ) : Type (ℓ ⊔ κ) where
  ok : A → Outcome E A
  err : E → Outcome E A
  panic : Outcome E A

module _ {ℓ κ ι} {E : Type ℓ} {A : Type κ} {B : Type ι} where
  -- The operator `?`: what comes next runs on the value.
  infixl 5 ◌>>=◌ ◌>>◌
  abbrev pub ◌>>=◌ : Outcome E A → (A → Outcome E B) → Outcome E B
  panic >>= next = panic
  err why >>= next = err why
  ok value >>= next = next value

  abbrev pub ◌>>◌ : Outcome E A → Outcome E B → Outcome E B
  first >> second = first >>= λ _. second

  -- What a chain that returned has gone through.
  pub >>=-eq-ok :
      (first : Outcome E A) (next : A → Outcome E B) {out : B}
      → (first >>= next) ≡ ok out
      → (value : A) × (first ≡ ok value) × (next value ≡ ok out)
  >>=-eq-ok panic next e = absurd (cc)
  >>=-eq-ok (err why) next e = absurd (cc)
  >>=-eq-ok (ok value) next e = (value, refl, e)

module _ {ℓ κ} {E : Type ℓ} {A : Type κ} where
  -- What holds of the value of a call that returns one; a call that panics has no such property.
  abbrev pub Returns : (A → Type 0) → Outcome E A → Type 0
  Returns P (ok a) = P a
  Returns P (err _) = Unit
  Returns P panic = ⊥

  pub Returns-imp :
      (P Q : A → Type 0) (o : Outcome E A) → ((a : A) → P a → Q a) → Returns P o → Returns Q o
  Returns-imp P Q (ok a) imp h = imp a h
  Returns-imp P Q (err why) imp h = tt
  Returns-imp P Q panic imp h = h

  -- A property of a call under a test.
  pub Returns-if :
      (P : A → Type 0) (b : Bool) (x y : Outcome E A)
      → (b ≡ true → Returns P x)
      → (b ≡ false → Returns P y)
      → Returns P (if b then x else y)
  Returns-if P true x y left right = left refl
  Returns-if P false x y left right = right refl

  pub Returns-elim :
      (P : A → Type 0) (b : Bool) (x y : Outcome E A)
      → (b ≡ true → Returns P x)
      → (b ≡ false → Returns P y)
      → Returns P (elim b [ true ↦ x | false ↦ y ])
  Returns-elim P true x y left right = left refl
  Returns-elim P false x y left right = right refl

module _ {E : Type 0} {A : Type 0} where
  pub Returns-eq :
      (P : A → Type 0) (o : Outcome E A) → Returns P o → Returns (λ a. (o ≡ ok a) × P a) o
  Returns-eq P (ok a) h = (refl, h)
  Returns-eq P (err why) h = tt
  Returns-eq P panic h = h

module _ {ℓ κ ι} {E : Type ℓ} {A : Type κ} {B : Type ι} where
  -- A property of a chain from one of its first call.
  pub Returns->>= :
      (P : A → Type 0) (Q : B → Type 0) (first : Outcome E A) (next : A → Outcome E B)
      → Returns P first
      → ((a : A) → P a → Returns Q (next a))
      → Returns Q (first >>= next)
  Returns->>= P Q (ok a) next h k = k a h
  Returns->>= P Q (err why) next h k = tt
  Returns->>= P Q panic next h k = absurd h

module _ {ℓ κ} {E : Type ℓ} {A : Type κ} where
  -- `Option::ok_or`
  abbrev pub ok_or : Option A → E → Outcome E A
  ok_or none e = err e
  ok_or (some a) e = ok a

  -- `Option::expect`
  abbrev pub expect : Option A → Outcome E A
  expect none = panic
  expect (some a) = ok a

pub ok-injective {ℓ κ} :
    {E : Type ℓ} {A : Type κ} {a b : A} → ◌≡◌ {A = Outcome E A} (ok a) (ok b) → a ≡ b
ok-injective {E} {A} {a} h =
    ap {A = Outcome E A} (λ o. elim o [ ok x ↦ x | err _ ↦ a | panic ↦ a ]) h

abbrev pub u64_max : ℕ
u64_max = 18446744073709551615

-- `u64::checked_add(1)`
unfoldable pub checked_succ : ℕ → Option ℕ
checked_succ n = if ltb n u64_max then some (n + 1) else none
