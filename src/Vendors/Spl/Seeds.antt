-- ===== src/Vendors/Spl/Seeds.antt =====
-- vendors/spl.rs: what can be read off the bytes that the addresses are derived from.
use stake_pool_tools.Base.{
  ℕ, zero, suc, ◌/◌, ◌%◌, ◌^◌, ◌<◌, ◌≤◌, ◌≡◌, ◌≢◌, refl, ap, sym, ◌∙◌, [], Bool-cases, ◌⊎◌, inl,
  inr, length, arith, ◌==◌, ==_iff,
}
use stake_pool_tools.Vendors.Spl.Address.{le_bytes, seed_bytes, non_zero}

pub length-le_bytes : (n x : ℕ) → length (le_bytes n x) ≡ n
length-le_bytes zero x = refl
length-le_bytes (suc n) x = ap suc (length-le_bytes n (x / 256))

pub le_bytes-injective :
    (n x y : ℕ) → x < 256 ^ n → y < 256 ^ n → le_bytes n x ≡ le_bytes n y → x ≡ y
le_bytes-injective zero x y p q h = omega (arith, p, q)
le_bytes-injective (suc n) x y p q h =
    let low : x % 256 ≡ y % 256 = cc in
    let rest : le_bytes n (x / 256) ≡ le_bytes n (y / 256) = cc in
    let high =
      le_bytes-injective n (x / 256) (y / 256) (omega (arith, p)) (omega (arith, q)) rest in
    omega (arith, low, high)

seed_cases :
    (s : ℕ)
    → ((s ≡ 0) × (seed_bytes (non_zero s) ≡ []))
      ⊎ ((s ≢ 0) × (seed_bytes (non_zero s) ≡ le_bytes 4 s))
seed_cases s = elim (Bool-cases (s == 0)) [
  | inl zeroed ↦ inl ((==_iff s 0).0 zeroed, rw zeroed)
  | inr other ↦ inr (λ h. ground arith, rw other)
]

pub length-seed_bytes-le : (s : ℕ) → length (seed_bytes (non_zero s)) ≤ 4
length-seed_bytes-le s = elim (seed_cases s) [
  | inl (_, bytes) ↦ omega (arith, ap length bytes)
  | inr (_, bytes) ↦ omega (arith, ap length bytes)
]

pub seed_bytes-injective :
    (s t : ℕ) → s < 2 ^ 32 → t < 2 ^ 32 → seed_bytes (non_zero s) ≡ seed_bytes (non_zero t) → s ≡ t
seed_bytes-injective s t p q h = elim (seed_cases s) [
  | inl (e, bytes) ↦ elim (seed_cases t) [
    | inl (e', _) ↦ omega (arith, e, e')
    | inr (_, bytes') ↦ absurd (omega (arith, ap length (sym bytes ∙ h ∙ bytes')))
  ]
  | inr (_, bytes) ↦ elim (seed_cases t) [
    | inl (_, bytes') ↦ absurd (omega (arith, ap length (sym bytes ∙ h ∙ bytes')))
    | inr (_, bytes') ↦ le_bytes-injective 4 s t p q (sym bytes ∙ h ∙ bytes')
  ]
]
