-- ===== src/Base/Dict.antt =====
-- Hash maps as association lists in the order of first insertion, over keys with a Boolean equality.
use mathlib.Core.Path.{◌≡◌, refl, sym, ◌∙◌, subst}
use mathlib.Core.Logic.{◌↔◌, inl, inr}
use mathlib.Core.Bool.{Bool, true}
use mathlib.Core.Option.{Option, none, some}
use mathlib.Core.List.{List, [], ◌∷◌, ◌++◌, foldl}
use native.Mathlib.Omega.{arith}
use Prim.Native.Nat.{ℕ, ◌+◌, ◌≤◌}
use stake_pool_tools.Base.Tests.{if◌then◌else◌, Bool-cases}
use Prim.Native.String.{String}
use text.Mathlib.Text.{◌==◌ as str_eq}
use text.Mathlib.TextEquality.{eq_iff}
use stake_pool_tools.Base.Lists.{sum_of}

pub record Eq {ℓ} (A : Type ℓ) : Type ℓ where
  pub beq : A → A → Bool
  pub beq_iff : (a b : A) → (beq a b ≡ true) ↔ (a ≡ b)

abbrev pub Dict {ℓ κ} : Type ℓ → Type κ → Type (ℓ ⊔ κ)
Dict K V = List (K × V)

pub beq_refl {ℓ} : {K : Type ℓ} ⦃e : Eq K⦄ (k : K) → e.beq k k ≡ true
beq_refl ⦃e⦄ k = (e.beq_iff k k).1 refl

abbrev pub or_else {ℓ} : {V : Type ℓ} → Option V → Option V → Option V
or_else (some v) o = some v
or_else none o = o

pub beq_sym {ℓ} : {K : Type ℓ} ⦃e : Eq K⦄ (j k : K) → e.beq j k ≡ e.beq k j
beq_sym ⦃e⦄ j k = ground (arith, e.beq_iff j k, e.beq_iff k j)

or_else-none {ℓ} : {V : Type ℓ} (o : Option V) → or_else o none ≡ o
or_else-none (some v) = refl
or_else-none none = refl

instance abbrev pub string_eq : Eq String
string_eq = record { beq = str_eq; beq_iff = eq_iff }

module _ {ℓ κ} {K : Type ℓ} {V : Type κ} ⦃e : Eq K⦄ where
  abbrev pub lookup : K → Dict K V → Option V
  lookup k [] = none
  lookup k ((j, v) ∷ d) = if e.beq j k then some v else lookup k d

  abbrev pub insert : K → V → Dict K V → Dict K V
  insert k v [] = (k, v) ∷ []
  insert k v ((j, w) ∷ d) = if e.beq j k then (j, v) ∷ d else (j, w) ∷ insert k v d

  abbrev pub insert_pair : Dict K V → K × V → Dict K V
  insert_pair d (k, v) = insert k v d

  -- `collect()` into a map: a later pair replaces an earlier one of the same key.
  abbrev pub collect : List (K × V) → Dict K V
  collect = foldl insert_pair []

  pub lookup-insert :
      (k j : K) (v : V) (d : Dict K V)
      → lookup j (insert k v d) ≡ (if e.beq k j then some v else lookup j d)
  lookup-insert k j v [] = refl
  lookup-insert k j v ((i, w) ∷ d) =
      ground (arith, e.beq_iff k j, e.beq_iff i k, e.beq_iff i j, lookup-insert k j v d)

  -- The value that the last pair with the key holds.
  abbrev pub last_value : K → List (K × V) → Option V
  last_value k [] = none
  last_value k ((j, v) ∷ xs) = elim (last_value k xs) [
    | some w ↦ some w
    | none ↦ if e.beq j k then some v else none
  ]

  lookup-foldl :
      (k : K) (xs : List (K × V)) (d : Dict K V)
      → lookup k (foldl insert_pair d xs) ≡ or_else (last_value k xs) (lookup k d)
  lookup-foldl k [] d = refl
  lookup-foldl k ((j, v) ∷ xs) d =
      ground (arith, lookup-foldl k xs (insert j v d), lookup-insert j k v d)

  -- Collecting keeps, for each key, the last of its values.
  pub lookup-collect : (k : K) (xs : List (K × V)) → lookup k (collect xs) ≡ last_value k xs
  lookup-collect k xs = lookup-foldl k xs [] ∙ or_else-none (last_value k xs)

  sum_of-insert-le :
      (f : K × V → ℕ)
      → ((j k : K) (v : V) → f (j, v) ≡ f (k, v))
      → (k : K) (v : V) (d : Dict K V) → sum_of f (insert k v d) ≤ f (k, v) + sum_of f d
  sum_of-insert-le f h k v [] = omega arith
  sum_of-insert-le f h k v ((j, w) ∷ d) = ground (arith, h j k v, sum_of-insert-le f h k v d)

  sum_of-foldl-le :
      (f : K × V → ℕ)
      → ((j k : K) (v : V) → f (j, v) ≡ f (k, v))
      → (xs : List (K × V)) (d : Dict K V)
      → sum_of f (foldl insert_pair d xs) ≤ sum_of f xs + sum_of f d
  sum_of-foldl-le f h [] d = omega arith
  sum_of-foldl-le f h ((k, v) ∷ xs) d =
      omega (arith, sum_of-foldl-le f h xs (insert k v d), sum_of-insert-le f h k v d)

  -- A sum over the values does not grow when the pairs are collected.
  pub sum_of-collect-le :
      (f : K × V → ℕ)
      → ((j k : K) (v : V) → f (j, v) ≡ f (k, v))
      → (xs : List (K × V)) → sum_of f (collect xs) ≤ sum_of f xs
  sum_of-collect-le f h xs = omega (arith, sum_of-foldl-le f h xs [])

  -- No key is held twice.
  abbrev pub Distinct : Dict K V → Type κ
  Distinct [] = Unit
  Distinct ((k, v) ∷ d) = (lookup k d ≡ none) × Distinct d

  pub insert-Distinct : (k : K) (v : V) (d : Dict K V) → Distinct d → Distinct (insert k v d)
  insert-Distinct k v [] h = (refl, tt)
  insert-Distinct k v ((j, w) ∷ d) h = elim (Bool-cases (e.beq j k)) [
    | inl same ↦ rw same h
    | inr other ↦
        rw other (rw (lookup-insert k j v d, beq_sym k j, other) h.0, insert-Distinct k v d h.1)
  ]

  foldl-Distinct :
      (xs : List (K × V)) (d : Dict K V) → Distinct d → Distinct (foldl insert_pair d xs)
  foldl-Distinct [] d h = h
  foldl-Distinct ((k, v) ∷ xs) d h = foldl-Distinct xs (insert k v d) (insert-Distinct k v d h)

  pub collect-Distinct : (xs : List (K × V)) → Distinct (collect xs)
  collect-Distinct xs = foldl-Distinct xs [] tt

  -- Where no key is held twice, the last value is the only one.
  pub last_value-eq-lookup : (k : K) (d : Dict K V) → Distinct d → last_value k d ≡ lookup k d
  last_value-eq-lookup k [] h = refl
  last_value-eq-lookup k ((j, v) ∷ d) h = elim (Bool-cases (e.beq j k)) [
    | inl same ↦
        let p : j ≡ k = (e.beq_iff j k).0 same in
        let missing : lookup k d ≡ none = subst (λ i. lookup i d ≡ none) p h.0 in
        rw (last_value-eq-lookup k d h.1, missing, same)
    | inr other ↦ ground (arith, last_value-eq-lookup k d h.1)
  ]

  pub last_value-append :
      (k : K) (xs ys : List (K × V))
      → last_value k (xs ++ ys) ≡ or_else (last_value k ys) (last_value k xs)
  last_value-append k [] ys = sym (or_else-none (last_value k ys))
  last_value-append k ((j, v) ∷ xs) ys = ground (arith, last_value-append k xs ys)
