-- ===== src/Providers/Marinade/Counting.antt =====
-- providers/marinade.rs: `staked_validator_count` against a count over the distinct validators.
use stake_pool_tools.Base.{
  ℕ, ◌+◌, ◌%◌, ◌<◌, ◌≡◌, refl, ap, ◌∙◌, String, Bool, none, some, List, [], ◌∷◌, map, foldl, All,
  arith, add_u64, u64_mod, leb, str_eq, eq_iff, if◌then◌else◌, length, keep,
}
use stake_pool_tools.Base.Dict.{
  Dict, lookup, insert, lookup-insert, string_eq, Distinct, insert-Distinct, beq_refl,
}
use stake_pool_tools.Providers.Marinade.{
  MarinadeStakePoolMeta, MarinadeStakePoolStakeAccount, account_lamports, add_lamports, has_stake,
  staked_validator_count,
}

-- The lamports of the accounts of one validator, modulo 2 ^ 64.
abbrev pub delegated_to : String → List MarinadeStakePoolStakeAccount → ℕ
delegated_to vote [] = 0
delegated_to vote (a ∷ rest) =
    if str_eq a.vote_account_address vote
    then add_u64 (account_lamports a) (delegated_to vote rest)
    else delegated_to vote rest

-- The validators, each once, in the order in which they appear.
abbrev add_vote : List String → String → List String
add_vote [] v = v ∷ []
add_vote (w ∷ votes) v = if str_eq w v then w ∷ votes else w ∷ add_vote votes v

abbrev pub distinct_votes : List MarinadeStakePoolStakeAccount → List String
distinct_votes accounts = foldl (λ votes a. add_vote votes a.vote_account_address) [] accounts

abbrev keys : Dict String ℕ → List String
keys d = map (λ x. x.0) d

abbrev value : String → Dict String ℕ → ℕ
value v d = elim (lookup v d) [ none ↦ 0 | some x ↦ x ]

keys-insert : (v : String) (x : ℕ) (d : Dict String ℕ) → keys (insert v x d) ≡ add_vote (keys d) v
keys-insert v x [] = refl
keys-insert v x ((w, y) ∷ d) = ground (arith, keys-insert v x d)

-- What a step stores for the account's validator, be it new or known.
abbrev added : Dict String ℕ → MarinadeStakePoolStakeAccount → ℕ
added d a = add_u64 (value a.vote_account_address d) (account_lamports a)

add_lamports_lem :
    (d : Dict String ℕ) (a : MarinadeStakePoolStakeAccount)
    → add_lamports d a ≡ insert a.vote_account_address (added d a) d
unfolding add_lamports
add_lamports_lem d a = ground arith

keys-add_lamports :
    (d : Dict String ℕ) (a : MarinadeStakePoolStakeAccount)
    → keys (add_lamports d a) ≡ add_vote (keys d) a.vote_account_address
keys-add_lamports d a = rw (add_lamports_lem d a) (keys-insert a.vote_account_address (added d a) d)

add_lamports-Distinct :
    (d : Dict String ℕ) (a : MarinadeStakePoolStakeAccount)
    → Distinct d
    → Distinct (add_lamports d a)
add_lamports-Distinct d a h =
    rw (add_lamports_lem d a) (insert-Distinct a.vote_account_address (added d a) d h)

value-add_lamports :
    (v : String) (d : Dict String ℕ) (a : MarinadeStakePoolStakeAccount)
    → value v (add_lamports d a) ≡ (
        if str_eq a.vote_account_address v
        then add_u64 (value v d) (account_lamports a)
        else value v d)
value-add_lamports v d a = rw (add_lamports_lem d a) (
    ground (
      arith,
      lookup-insert a.vote_account_address v (added d a) d,
      λ (same : a.vote_account_address ≡ v). ap (λ w. value w d) same,
      eq_iff a.vote_account_address v,
    ))

value-foldl :
    (v : String) (accounts : List MarinadeStakePoolStakeAccount) (d : Dict String ℕ)
    → value v d < u64_mod
    → value v (foldl add_lamports d accounts) ≡ (value v d + delegated_to v accounts) % u64_mod
value-foldl v [] d h = omega arith
value-foldl v (a ∷ accounts) d h =
    ground (arith, value-add_lamports v d a, value-foldl v accounts (add_lamports d a))

delegated_to-lt :
    (v : String) (accounts : List MarinadeStakePoolStakeAccount) → delegated_to v accounts < u64_mod
delegated_to-lt v [] = omega arith
delegated_to-lt v (a ∷ accounts) = ground (arith, delegated_to-lt v accounts)

value-table :
    (v : String) (accounts : List MarinadeStakePoolStakeAccount)
    → value v (foldl add_lamports [] accounts) ≡ delegated_to v accounts
value-table v accounts =
    omega (arith, value-foldl v accounts [] (omega arith), delegated_to-lt v accounts)

foldl-Distinct :
    (accounts : List MarinadeStakePoolStakeAccount) (d : Dict String ℕ)
    → Distinct d
    → Distinct (foldl add_lamports d accounts)
foldl-Distinct [] d h = h
foldl-Distinct (a ∷ accounts) d h =
    foldl-Distinct accounts (add_lamports d a) (add_lamports-Distinct d a h)

keys-foldl :
    (accounts : List MarinadeStakePoolStakeAccount) (d : Dict String ℕ)
    → keys (foldl add_lamports d accounts)
      ≡ foldl (λ votes a. add_vote votes a.vote_account_address) (keys d) accounts
keys-foldl [] d = refl
keys-foldl (a ∷ accounts) d =
    keys-foldl accounts (add_lamports d a)
    ∙ ap (λ ks. foldl (λ votes a. add_vote votes a.vote_account_address) ks accounts)
        (keys-add_lamports d a)

-- Where each entry of `d` is the one that `whole` has for its key, counting the entries is counting
-- the keys by their values.
length-keep-entries :
    (d whole : Dict String ℕ)
    → All (λ x. lookup x.0 whole ≡ some x.1) d
    → length (keep has_stake d) ≡ length (keep (λ v. leb 1_000_000_000 (value v whole)) (keys d))
length-keep-entries [] whole h = refl
length-keep-entries ((k, x) ∷ d) whole (h, hs) = ground (arith, length-keep-entries d whole hs)

All-lookup-weaken :
    (k : String) (x : ℕ) (d e : Dict String ℕ)
    → lookup k e ≡ none
    → All (λ y. lookup y.0 e ≡ some y.1) d
    → All (λ y. lookup y.0 ((k, x) ∷ e) ≡ some y.1) d
All-lookup-weaken k x [] e h hs = tt
All-lookup-weaken k x ((j, y) ∷ d) e h (p, hs) = (
  ground (arith, eq_iff k j, λ (same : k ≡ j). ap (λ w. lookup w e) same),
  All-lookup-weaken k x d e h hs,
)

All-lookup : (d : Dict String ℕ) → Distinct d → All (λ y. lookup y.0 d ≡ some y.1) d
All-lookup [] h = tt
All-lookup ((k, x) ∷ d) (h, hs) = (rw (beq_refl k), All-lookup-weaken k x d d h (All-lookup d hs))

keep-ext {ℓ} :
    {A : Type ℓ} (p q : A → Bool) → ((x : A) → p x ≡ q x) → (xs : List A) → keep p xs ≡ keep q xs
keep-ext p q h [] = refl
keep-ext p q h (x ∷ xs) = ground (arith, h x, keep-ext p q h xs)

module _ {F : Type 0} where
  -- The count over the map that the fold builds is the number of distinct validators whose stake
  -- accounts hold at least one SOL together, their lamports added as 64-bit numbers.
  pub staked_validator_count_lem :
      (m : MarinadeStakePoolMeta F)
      → staked_validator_count m
        ≡ length (
            keep
              (λ v. leb 1_000_000_000 (delegated_to v m.stake_accounts))
              (distinct_votes m.stake_accounts))
  unfolding staked_validator_count
  staked_validator_count_lem m =
      let accounts = m.stake_accounts in
      let table = foldl add_lamports [] accounts in
      length-keep-entries table table (All-lookup table (foldl-Distinct accounts [] tt))
      ∙ ap length (
          keep-ext _ (λ v. leb 1_000_000_000 (delegated_to v accounts))
            (λ v. ap (leb 1_000_000_000) (value-table v accounts)) (keys table))
      ∙ ap (λ votes. length (keep (λ v. leb 1_000_000_000 (delegated_to v accounts)) votes))
          (keys-foldl accounts [])
