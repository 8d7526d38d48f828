-- ===== src/Tests/Addresses.antt =====
-- Numbers as keys, and addresses that are the sum of all seed bytes.
use stake_pool_tools.Base.{ℕ, zero, suc, ◌≡◌, ◌≢◌, ◌↔◌, refl, some, List, [], ◌∷◌, sum, arith}
use stake_pool_tools.Solana.{Pubkey}
use stake_pool_tools.Vendors.Spl.{ValidatorStakeInfo}
use stake_pool_tools.Vendors.Spl.Address.{
  find_stake_program_address, find_transient_stake_program_address,
}
use stake_pool_tools.Providers.Spl.{active_address, transient_address}
use stake_pool_tools.Providers.Spl.Addresses.{
  joined, active_seeds, transient_seeds, Keys, NoCollision, stake_accounts_apart,
}

abbrev zeros : ℕ → List ℕ
zeros zero = []
zeros (suc n) = 0 ∷ zeros n

instance abbrev numbers : Pubkey ℕ
numbers = record {
  to_string = λ n. "a number";
  from_str = λ s. some 0;
  pubkey = λ s. 0;
  as_ref = λ n. n ∷ zeros 31;
  find_program_address = λ seeds program. (sum (joined seeds), 255);
}

numbers-Keys : Keys ℕ
numbers-Keys = record { size = λ n. refl; as_ref-injective = λ m n h. cc }

abbrev first : ValidatorStakeInfo ℕ
first = record {
  active_stake_lamports = 0;
  transient_stake_lamports = 0;
  last_update_epoch = 7;
  transient_seed_suffix = 5;
  unused = 0;
  validator_seed_suffix = 0;
  status = record { byte = 0 };
  vote_account_address = 2;
}

abbrev second : ValidatorStakeInfo ℕ
second = record first { vote_account_address = 3; validator_seed_suffix = 7 }

numbers-NoCollision : NoCollision ℕ (
    active_seeds 1 first
    ∷ transient_seeds 1 first
    ∷ active_seeds 4 second
    ∷ transient_seeds 4 second
    ∷ [])
numbers-NoCollision = (
  (
    (λ h. refl),
    (
      (λ h. absurd (omega (arith, h))),
      ((λ h. absurd (omega (arith, h))), ((λ h. absurd (omega (arith, h))), tt)),
    ),
  ),
  (
    (
      (λ h. absurd (omega (arith, h))),
      ((λ h. refl), ((λ h. absurd (omega (arith, h))), ((λ h. absurd (omega (arith, h))), tt))),
    ),
    (
      (
        (λ h. absurd (omega (arith, h))),
        ((λ h. absurd (omega (arith, h))), ((λ h. refl), ((λ h. absurd (omega (arith, h))), tt))),
      ),
      (
        (
          (λ h. absurd (omega (arith, h))),
          ((λ h. absurd (omega (arith, h))), ((λ h. absurd (omega (arith, h))), ((λ h. refl), tt))),
        ),
        tt,
      ),
    ),
  ),
)

-- The active account has the bytes 2, 1; the transient one adds the prefix and 5.
derived : (active_address 1 first ≡ 3) × (transient_address 1 first ≡ 992)
unfolding active_address transient_address find_stake_program_address
    find_transient_stake_program_address
derived = (refl, refl)

stake_accounts_apart_example :
    (active_address 1 first ≢ transient_address 4 second)
    × (active_address 1 first ≡ active_address 4 second
        ↔ (◌≡◌ {A = ℕ} 1 4) × (◌≡◌ {A = ℕ} 2 3) × (◌≡◌ {A = ℕ} 0 7))
    × (transient_address 1 first ≡ transient_address 4 second
        ↔ (◌≡◌ {A = ℕ} 1 4) × (◌≡◌ {A = ℕ} 2 3) × (◌≡◌ {A = ℕ} 5 5))
stake_accounts_apart_example =
    stake_accounts_apart ℕ 1 4 first second numbers-Keys numbers-NoCollision
      (omega arith, omega arith) (omega arith, omega arith)
