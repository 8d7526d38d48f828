-- ===== src/Base/Panics.antt =====
-- Code that may panic: what a call returns, or how it panics.
use Prim.Native.Nat.{suc}
use mathlib.Core.Path.{◌≡◌, refl, ap}
use mathlib.Core.Bool.{Bool, true, false}
use mathlib.Core.Option.{Option, none, some}
use mathlib.Core.List.{List, [], ◌∷◌, map}
use stake_pool_tools.Base.Lists.{length, All}

pub data Panic : Type 0 where
  unwrap_failed expect_failed assert_failed unreachable_reached out_of_bounds : Panic
  both_activating_and_deactivating neither_activating_nor_deactivating : Panic
  -- no panic: `process::exit(1)`
  exited : Panic
  -- no panic: the model's bound on the rounds of a loop was reached
  out_of_fuel : Panic

pub data Outcome {ℓ} (A : Type ℓ) : Type ℓ where
  ok : A → Outcome A
  panic : Panic → Outcome A

infixl 5 ◌>>=◌ ◌>>◌
abbrev pub ◌>>=◌ {ℓ κ} : {A : Type ℓ} {B : Type κ} → Outcome A → (A → Outcome B) → Outcome B
panic p >>= next = panic p
ok a >>= next = next a

abbrev pub unwrap {ℓ} : {A : Type ℓ} → Option A → Outcome A
unwrap none = panic unwrap_failed
unwrap (some a) = ok a

abbrev pub expect {ℓ} : {A : Type ℓ} → Option A → Outcome A
expect none = panic expect_failed
expect (some a) = ok a

-- A slice's range that does not fit.
abbrev pub unwrap_range {ℓ} : {A : Type ℓ} → Option A → Outcome A
unwrap_range none = panic out_of_bounds
unwrap_range (some a) = ok a

abbrev pub ◌>>◌ {ℓ} : {B : Type ℓ} → Outcome (Unit {0}) → Outcome B → Outcome B
first >> second = first >>= λ _. second

abbrev pub ensure : Bool → Panic → Outcome (Unit {0})
ensure true e = ok tt
ensure false e = panic e

-- An iterator's `map` by a function that may panic, collected from the first element on.
abbrev pub traverse {ℓ κ} : {A : Type ℓ} {B : Type κ} → (A → Outcome B) → List A → Outcome (List B)
traverse f [] = ok []
traverse f (x ∷ xs) = f x >>= λ y. traverse f xs >>= λ ys. ok (y ∷ ys)

abbrev pub cons_some {ℓ} : {A : Type ℓ} → Option A → List A → List A
cons_some none xs = xs
cons_some (some x) xs = x ∷ xs

-- `filter_map` by a function that may panic.
abbrev pub traverse_some {ℓ κ} :
    {A : Type ℓ} {B : Type κ} → (A → Outcome (Option B)) → List A → Outcome (List B)
traverse_some f [] = ok []
traverse_some f (x ∷ xs) = f x >>= λ o. traverse_some f xs >>= λ ys. ok (cons_some o ys)

pub >>=-eq-ok {ℓ κ} :
    {A : Type ℓ} {B : Type κ} (call : Outcome A) (next : A → Outcome B) {b : B}
    → (call >>= next) ≡ ok b
    → (a : A) × (call ≡ ok a) × (next a ≡ ok b)
>>=-eq-ok (panic p) next h = cc
>>=-eq-ok (ok a) next h = (a, refl, h)

pub unwrap-eq-ok {ℓ} : {A : Type ℓ} (o : Option A) {a : A} → unwrap o ≡ ok a → o ≡ some a
unwrap-eq-ok none h = cc
unwrap-eq-ok (some x) h = cc

pub ok-injective {ℓ} : {A : Type ℓ} {a b : A} → ok a ≡ ok b → a ≡ b
ok-injective h = cc

pub ensure-true : (b : Bool) (p : Panic) → ensure b p ≡ ok tt → b ≡ true
ensure-true true p h = refl
ensure-true false p h = cc

-- The result holds one value for each element.
pub length-traverse {ℓ κ} :
    {A : Type ℓ} {B : Type κ} (f : A → Outcome B) (xs : List A) (ys : List B)
    → traverse f xs ≡ ok ys
    → length ys ≡ length xs
length-traverse f [] ys h = rw (← ok-injective h)
length-traverse f (x ∷ xs) ys h =
    let (y, _, h') = >>=-eq-ok (f x) (λ y. traverse f xs >>= λ ys. ok (y ∷ ys)) h in
    let (ys', e, h'') = >>=-eq-ok (traverse f xs) (λ ys. ok (y ∷ ys)) h' in
    rw (← ok-injective h'') (ap suc (length-traverse f xs ys' e))

-- Where every call returns, so does the collection.
pub traverse-eq-map {ℓ κ} :
    {A : Type ℓ} {B : Type κ} (f : A → Outcome B) (g : A → B) (xs : List A)
    → All (λ x. f x ≡ ok (g x)) xs
    → traverse f xs ≡ ok (map g xs)
traverse-eq-map f g [] h = refl
traverse-eq-map f g (x ∷ xs) (h, hs) = rw (h, traverse-eq-map f g xs hs)

-- What holds of one element and its value holds, as an equation of two views, of all.
pub map-traverse {ℓ κ μ} :
    {A : Type ℓ} {B : Type κ} {C : Type μ} (f : A → Outcome B) (g : B → C) (h : A → C)
    → ((x : A) (y : B) → f x ≡ ok y → g y ≡ h x)
    → (xs : List A) (ys : List B) → traverse f xs ≡ ok ys
    → map g ys ≡ map h xs
map-traverse f g h each [] ys e = rw (← ok-injective e)
map-traverse f g h each (x ∷ xs) ys e =
    let (y, one, e') = >>=-eq-ok (f x) (λ y. traverse f xs >>= λ ys. ok (y ∷ ys)) e in
    let (ys', rest, e'') = >>=-eq-ok (traverse f xs) (λ ys. ok (y ∷ ys)) e' in
    rw (← ok-injective e'', each x y one, map-traverse f g h each xs ys' rest)

-- The call returns.
abbrev pub Returns {ℓ} : {A : Type ℓ} → Outcome A → Type ℓ
Returns {A} call = (a : A) × (call ≡ ok a)

module _ {ℓ κ} {A : Type ℓ} {B : Type κ} where
  pub >>=-Returns :
      (call : Outcome A) (next : A → Outcome B)
      → Returns call
      → ((a : A) → Returns (next a))
      → Returns (call >>= next)
  >>=-Returns call next (a, e) h = rw e (h a)

  pub traverse-Returns :
      (f : A → Outcome B) (xs : List A) → All (λ x. Returns (f x)) xs → Returns (traverse f xs)
  traverse-Returns f [] h = ([], refl)
  traverse-Returns f (x ∷ xs) ((y, e), hs) =
      let (ys, e') = traverse-Returns f xs hs in (y ∷ ys, rw (e, e'))

  pub Returns->>= :
      (call : Outcome A) (next : A → Outcome B) → Returns (call >>= next) → Returns call
  Returns->>= call next (b, h) = let (a, e, _) = >>=-eq-ok call next h in (a, e)

  pub Returns-traverse :
      (f : A → Outcome B) (xs : List A) → Returns (traverse f xs) → All (λ x. Returns (f x)) xs
  Returns-traverse f [] h = tt
  Returns-traverse f (x ∷ xs) (ys, h) =
      let (y, e, rest) = >>=-eq-ok (f x) _ h in
      let (zs, e', _) = >>=-eq-ok (traverse f xs) _ rest in ((y, e), Returns-traverse f xs (zs, e'))
