-- ===== src/Providers/Spl/Addresses.antt =====
-- providers/spl.rs: the derived addresses of the stake accounts.
use stake_pool_tools.Base.{
  ℕ, ◌+◌, ◌^◌, ◌<◌, ◌≡◌, ◌≢◌, ◌↔◌, refl, ap, sym, ◌∙◌, List, [], ◌∷◌, ◌++◌, All, length,
  length-append, append_nil, append_cancel, arith,
}
use stake_pool_tools.Solana.{Pubkey}
use stake_pool_tools.Vendors.Spl.{ValidatorStakeInfo}
use stake_pool_tools.Vendors.Spl.Address.{
  le_bytes, seed_bytes, non_zero, transient_stake_seed_prefix, find_stake_program_address,
  find_transient_stake_program_address,
}
use stake_pool_tools.Vendors.Spl.Seeds.{
  length-le_bytes, le_bytes-injective, length-seed_bytes-le, seed_bytes-injective,
}
use stake_pool_tools.Providers.Spl.{program_id, active_address, transient_address}

-- The seeds of a derived address as the bytes that are hashed.
abbrev pub joined : List (List ℕ) → List ℕ
joined [] = []
joined (s ∷ seeds) = s ++ joined seeds

module _ {P : Type 0} ⦃k : Pubkey P⦄ where
  abbrev pub active_seeds : P → ValidatorStakeInfo P → List (List ℕ)
  active_seeds pool info =
      k.as_ref info.vote_account_address
      ∷ k.as_ref pool
      ∷ seed_bytes (non_zero info.validator_seed_suffix)
      ∷ []

  abbrev pub transient_seeds : P → ValidatorStakeInfo P → List (List ℕ)
  transient_seeds pool info =
      transient_stake_seed_prefix
      ∷ k.as_ref info.vote_account_address
      ∷ k.as_ref pool
      ∷ le_bytes 8 info.transient_seed_suffix
      ∷ []

  -- The seed suffixes are machine words.
  abbrev pub Words : ValidatorStakeInfo P → Type 0
  Words info = (info.validator_seed_suffix < 2 ^ 32) × (info.transient_seed_suffix < 2 ^ 64)

module _ (P : Type 0) ⦃k : Pubkey P⦄ where
  -- A key is its 32 bytes.
  pub record Keys : Type 0 where
    pub size : (p : P) → length (k.as_ref p) ≡ 32
    pub as_ref-injective : (p q : P) → k.as_ref p ≡ k.as_ref q → p ≡ q

  -- Among these seeds, none that are different bytes derive the same address of the program.
  abbrev pub NoCollision : List (List (List ℕ)) → Type 0
  NoCollision seeds =
      All
        (λ s.
          All
            (λ t.
              (k.find_program_address s program_id).0 ≡ (k.find_program_address t program_id).0
              → joined s ≡ joined t)
            seeds)
        seeds

  keys_cancel :
      Keys
      → (v w p q : P) (xs ys : List ℕ)
      → k.as_ref v ++ (k.as_ref p ++ xs) ≡ k.as_ref w ++ (k.as_ref q ++ ys)
      → (p ≡ q) × (v ≡ w) × (xs ≡ ys)
  keys_cancel keys v w p q xs ys h =
      let (votes, h₁) =
        append_cancel (k.as_ref v) (k.as_ref w) (omega (arith, keys.size v, keys.size w)) h in
      let (pools, rest) =
        append_cancel (k.as_ref p) (k.as_ref q) (omega (arith, keys.size p, keys.size q)) h₁ in
      (keys.as_ref-injective p q pools, keys.as_ref-injective v w votes, rest)

  length-keys :
      Keys
      → (v p : P) (xs : List ℕ) → length (k.as_ref v ++ (k.as_ref p ++ (xs ++ []))) ≡ 64 + length xs
  length-keys keys v p xs = omega (
    arith,
    keys.size v,
    keys.size p,
    length-append (k.as_ref v) (k.as_ref p ++ (xs ++ [])),
    length-append (k.as_ref p) (xs ++ []),
    length-append xs [],
  )

  -- 64 or 68 bytes stand against 81.
  lengths_differ :
      (p q : P) (a b : ValidatorStakeInfo P)
      → Keys
      → joined (active_seeds p a) ≢ joined (transient_seeds q b)
  lengths_differ p q a b keys same = omega (
    arith,
    ap length same,
    length-keys keys a.vote_account_address p (seed_bytes (non_zero a.validator_seed_suffix)),
    length-keys keys b.vote_account_address q (le_bytes 8 b.transient_seed_suffix),
    length-seed_bytes-le a.validator_seed_suffix,
    length-le_bytes 8 b.transient_seed_suffix,
  )

  -- Take a validator of each of two pools, or of one. Their keys have 32 bytes, their seed suffixes
  -- are machine words, and the derivation has no collision among the seeds of their four stake
  -- accounts. Then an active account is never the other's transient account, two active accounts are
  -- one exactly if pool, vote account and seed suffix are the same, and two transient accounts are
  -- one exactly if pool, vote account and transient seed suffix are the same.
  pub stake_accounts_apart :
      (p q : P) (a b : ValidatorStakeInfo P)
      → Keys
      → NoCollision
          (active_seeds p a ∷ transient_seeds p a ∷ active_seeds q b ∷ transient_seeds q b ∷ [])
      → Words a
      → Words b
      → (active_address p a ≢ transient_address q b)
        × (active_address p a ≡ active_address q b
            ↔ (p ≡ q)
              × (a.vote_account_address ≡ b.vote_account_address)
              × (a.validator_seed_suffix ≡ b.validator_seed_suffix))
        × (transient_address p a ≡ transient_address q b
            ↔ (p ≡ q)
              × (a.vote_account_address ≡ b.vote_account_address)
              × (a.transient_seed_suffix ≡ b.transient_seed_suffix))
  unfolding active_address transient_address find_stake_program_address
      find_transient_stake_program_address
  stake_accounts_apart p q a b keys free (word_a, word_a') (word_b, word_b') =
      let active_active = free.0.1.1.0 in
      let active_transient = free.0.1.1.1.0 in
      let transient_transient = free.1.0.1.1.1.0 in
      (
        (λ same. lengths_differ p q a b keys (active_transient same)),
        (
          (λ same.
              let (pools, votes, rest) = keys_cancel keys _ _ p q _ _ (active_active same) in
              (
                pools,
                votes,
                seed_bytes-injective a.validator_seed_suffix b.validator_seed_suffix word_a word_b
                    (sym (append_nil _) ∙ rest ∙ append_nil _),
              )),
          (λ (pools, votes, suffixes). rw (pools, votes, suffixes)),
        ),
        (
          (λ same.
              let (_, behind) =
                append_cancel transient_stake_seed_prefix transient_stake_seed_prefix refl
                  (transient_transient same) in
              let (pools, votes, rest) = keys_cancel keys _ _ p q _ _ behind in
              (
                pools,
                votes,
                le_bytes-injective 8 a.transient_seed_suffix b.transient_seed_suffix word_a' word_b'
                    (sym (append_nil _) ∙ rest ∙ append_nil _),
              )),
          (λ (pools, votes, suffixes). rw (pools, votes, suffixes)),
        ),
      )
