-- ===== src/Base/Order.antt =====
-- The trait `Ord`, and the order that `derive(Ord)` gives a struct of two fields.
use native.Mathlib.Omega.{arith}
use mathlib.Core.Path.{◌≡◌}
use Prim.Native.Nat.{Ordering, compare, ℕ}
use Prim.Native.Nat.Ordering.{eq, gt, lt}

pub record IsOrder {ℓ} {K : Type ℓ} (cmp : K → K → Ordering) : Type ℓ where
  pub cmp_trans : (x y z : K) → cmp x y ≡ lt → cmp y z ≡ lt → cmp x z ≡ lt
  pub cmp_gt : (x y : K) → cmp x y ≡ gt → cmp y x ≡ lt
  pub cmp_lt : (x y : K) → cmp x y ≡ lt → cmp y x ≡ gt
  pub cmp_eq : (x y : K) → cmp x y ≡ eq → x ≡ y
  pub cmp_self : (x : K) → cmp x x ≡ eq

-- A key with its order.
pub record Ord {ℓ} (K : Type ℓ) : Type ℓ where
  pub cmp : K → K → Ordering
  pub laws : IsOrder cmp

pub compare-IsOrder : IsOrder compare
compare-IsOrder = ground arith

instance abbrev pub nat_ord : Ord ℕ
nat_ord = record { cmp = compare; laws = compare-IsOrder }

-- The first field decides, and the second breaks a tie.
abbrev pub lex : Ordering → Ordering → Ordering
lex lt _ = lt
lex eq second = second
lex gt _ = gt
