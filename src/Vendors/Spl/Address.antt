-- ===== src/Vendors/Spl/Address.antt =====
-- vendors/spl.rs: the addresses that the stake pool program derives for a validator's accounts.
use stake_pool_tools.Base.{
  ℕ, zero, suc, List, [], ◌∷◌, Option, none, some, ◌/◌, ◌%◌, ◌==◌, if◌then◌else◌,
}
use stake_pool_tools.Solana.{Pubkey}

-- `to_le_bytes` of a number of `n` bytes.
abbrev pub le_bytes : ℕ → ℕ → List ℕ
le_bytes zero x = []
le_bytes (suc n) x = (x % 256) ∷ le_bytes n (x / 256)

abbrev pub transient_stake_seed_prefix : List ℕ
transient_stake_seed_prefix = b't' ∷ b'r' ∷ b'a' ∷ b'n' ∷ b's' ∷ b'i' ∷ b'e' ∷ b'n' ∷ b't' ∷ []

-- `NonZeroU32::new`.
abbrev pub non_zero : ℕ → Option ℕ
non_zero n = if n == 0 then none else some n

abbrev pub seed_bytes : Option ℕ → List ℕ
seed_bytes none = []
seed_bytes (some s) = le_bytes 4 s

module _ {P : Type 0} ⦃k : Pubkey P⦄ where
  unfoldable pub find_stake_program_address : P → P → P → Option ℕ → P × ℕ
  find_stake_program_address program_id vote pool seed =
      k.find_program_address (k.as_ref vote ∷ k.as_ref pool ∷ seed_bytes seed ∷ []) program_id

  unfoldable pub find_transient_stake_program_address : P → P → P → ℕ → P × ℕ
  find_transient_stake_program_address program_id vote pool seed =
      k.find_program_address
        (transient_stake_seed_prefix ∷ k.as_ref vote ∷ k.as_ref pool ∷ le_bytes 8 seed ∷ [])
        program_id
