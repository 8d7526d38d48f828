-- ===== src/Base/Orders.antt =====
-- Lists up to the order of their elements.
use mathlib.Core.List.{Perm, Permᴰ}
use mathlib.Core.Logic.{∥∥₁_elim}
use native.Mathlib.Nat.{ℕ_set}
use Prim.Native.Nat.{ℕ}
use mathlib.Core.Path.{◌≡◌, refl, ap, ◌∙◌}
use mathlib.Core.List.{List}
use native.Mathlib.Omega.{arith}
use stake_pool_tools.Base.Lists.{sum_of}

module _ {ℓ} {A : Type ℓ} (f : A → ℕ) where
  sum_of-permᴰ : {xs ys : List A} → Permᴰ xs ys → sum_of f xs ≡ sum_of f ys
  sum_of-permᴰ Permᴰ.nil = refl
  sum_of-permᴰ (Permᴰ.cons e p) = omega (arith, ap f e, sum_of-permᴰ p)
  sum_of-permᴰ (Permᴰ.swap e e') = omega (arith, ap f e, ap f e')
  sum_of-permᴰ (Permᴰ.trans p q) = sum_of-permᴰ p ∙ sum_of-permᴰ q

  -- A sum does not see the order of its terms.
  pub sum_of-perm : {xs ys : List A} → Perm xs ys → sum_of f xs ≡ sum_of f ys
  sum_of-perm p = ∥∥₁_elim p (ℕ_set _ _) sum_of-permᴰ
