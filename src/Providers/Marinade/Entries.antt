-- ===== src/Providers/Marinade/Entries.antt =====
-- providers/marinade.rs: what the records of the list leave in the map of stake accounts.
use stake_pool_tools.Providers.StakeAccounts.{as_stake}
use stake_pool_tools.Base.{
  cons_some, ◌>>=◌, ◌≡◌, refl, ap, sym, ◌∙◌, Bool, true, false, Option, none, some, List, [], ◌∷◌,
  inl, inr, Option-cases, Bool-cases, ok, unwrap, traverse_some, >>=-eq-ok, ok-injective, arith,
  if◌then◌else◌,
}
use stake_pool_tools.Base.Dict.{Eq, lookup, collect, last_value, lookup-collect}
use stake_pool_tools.Solana.{
  Account, Meta, Stake, StakeState, uninitialized, initialized, staked, rewards_pool, StakeProgram,
  Borsh, Bank, Pubkey,
}
use stake_pool_tools.Vendors.Marinade.Records.{StakeRecord}
use stake_pool_tools.Providers.Marinade.{find_stake_account}

abbrev voter_of : {P : Type 0} → Account → Option (StakeState P) → Option (P × Account)
voter_of a none = none
voter_of a (some uninitialized) = none
voter_of a (some (initialized m)) = none
voter_of a (some (staked m s)) = some (s.delegation.voter_pubkey, a)
voter_of a (some rewards_pool) = none

abbrev with_key : {P A : Type 0} → P → Option A → Option (P × A)
with_key p none = none
with_key p (some a) = some (p, a)

module _ {P : Type 0} ⦃e : Eq P⦄ ⦃state : Borsh (StakeState P)⦄ where
  -- The account that the bank holds at an address, with the validator it is staked to; `none` also
  -- where it is no stake.
  abbrev pub held_at : Bank P → P → Option (P × Account)
  held_at bank p = elim (bank.get_account p) [
    | none ↦ none
    | some a ↦ voter_of a (state.try_from_slice_unchecked a.bytes)
  ]

  -- A record names the address.
  abbrev pub is_named : P → List (StakeRecord P) → Bool
  is_named p [] = false
  is_named p (r ∷ records) =
      let rest = is_named p records in if e.beq r.stake_account p then true else rest

  -- What an address stands for in the map of the pool's stake accounts: nothing if no record names it
  -- or if the bank has no account there, and otherwise the account, which then decodes to a stake,
  -- under the validator that the stake is delegated to.
  pub data Entry (bank : Bank P) (records : List (StakeRecord P)) (p : P) (o : Option (P × Account))
      : Type 0 where
    unnamed : is_named p records ≡ false → o ≡ none → Entry bank records p o
    closed :
        is_named p records ≡ true → bank.get_account p ≡ none → o ≡ none → Entry bank records p o
    entered :
        (a : Account) (m : Meta) (s : Stake P)
        → is_named p records ≡ true
        → bank.get_account p ≡ some a
        → state.try_from_slice_unchecked a.bytes ≡ some (staked m s)
        → o ≡ some (s.delegation.voter_pubkey, a)
        → Entry bank records p o

  last_value-with_key :
      (p q : P) (h : Option (P × Account)) (rest : List (P × (P × Account)))
      → last_value p (cons_some (with_key q h) rest)
        ≡ elim (last_value p rest) [ some w ↦ some w | none ↦ (if e.beq q p then h else none) ]
  last_value-with_key p q none rest = ground arith
  last_value-with_key p q (some h) rest = refl

entry-voter :
    {P : Type 0} (p : P) (a : Account) (decoded : Option (StakeState P))
    (o : Option (P × (P × Account)))
    → (unwrap decoded >>= λ d.
        as_stake d >>= λ (_, s). ok (some (p, (s.delegation.voter_pubkey, a))))
      ≡ ok o
    → o ≡ with_key p (voter_of a decoded)
entry-voter p a none o h = cc
entry-voter p a (some uninitialized) o h = cc
entry-voter p a (some (initialized m)) o h = cc
entry-voter p a (some (staked m s)) o h = cc
entry-voter p a (some rewards_pool) o h = cc

-- An entry was made, so the account is a stake.
entry-staked :
    {P : Type 0} (p : P) (a : Account) (decoded : Option (StakeState P))
    (o : Option (P × (P × Account)))
    → (unwrap decoded >>= λ d.
        as_stake d >>= λ (_, s). ok (some (p, (s.delegation.voter_pubkey, a))))
      ≡ ok o
    → (m : Meta) × (s : Stake P) × (decoded ≡ some (staked m s))
entry-staked p a none o h = cc
entry-staked p a (some uninitialized) o h = cc
entry-staked p a (some (initialized m)) o h = cc
entry-staked p a (some (staked m s)) o h = (m, s, refl)
entry-staked p a (some rewards_pool) o h = cc

settle :
    {A : Type 0} (named same : Bool) (at_p at_q : Option A)
    → (same ≡ true → at_q ≡ at_p)
    → elim (if named then at_p else none) [ some w ↦ some w | none ↦ (if same then at_q else none) ]
      ≡ (if (if same then true else named) then at_p else none)
settle true true none at_q h = h refl
settle true false none at_q h = refl
settle true true (some w) at_q h = refl
settle true false (some w) at_q h = refl
settle false true at_p at_q h = h refl
settle false false at_p at_q h = refl

module _ {P : Type 0} ⦃e : Eq P⦄ ⦃k : Pubkey P⦄ ⦃program : StakeProgram P⦄
    ⦃state : Borsh (StakeState P)⦄ where
  find_stake_account-held :
      (bank : Bank P) (r : StakeRecord P) (o : Option (P × (P × Account)))
      → find_stake_account bank r ≡ ok o
      → o ≡ with_key r.stake_account (held_at bank r.stake_account)
  unfolding find_stake_account
  find_stake_account-held bank r o h = elim (Option-cases (bank.get_account r.stake_account)) [
    | inl missing ↦
        rw (with_key, held_at, missing) (sym (ok-injective (rw (find_stake_account, missing) at h)))
    | inr (a, found) ↦
        rw (with_key, held_at, found)
          (entry-voter r.stake_account a (state.try_from_slice_unchecked a.bytes) o
            (rw (find_stake_account, found) at h))
  ]

  last_value-named :
      (bank : Bank P) (p : P) (records : List (StakeRecord P)) (found : List (P × (P × Account)))
      → traverse_some (find_stake_account bank) records ≡ ok found
      → last_value p found ≡ (if is_named p records then held_at bank p else none)
  last_value-named bank p [] found h = rw (← ok-injective h)
  last_value-named bank p (r ∷ records) found h =
      let (o, one, h₁) = >>=-eq-ok (find_stake_account bank r) _ h in
      let (rest, more, h₂) = >>=-eq-ok (traverse_some (find_stake_account bank) records) _ h₁ in
      let here = find_stake_account-held bank r o one in
      let later = last_value-named bank p records rest more in
      rw
        (
          ← ok-injective h₂,
          here,
          last_value-with_key p r.stake_account (held_at bank r.stake_account) rest,
          later,
        )
        (settle (is_named p records) (e.beq r.stake_account p) (held_at bank p)
          (held_at bank r.stake_account)
          (λ same. ap (held_at bank) ((e.beq_iff r.stake_account p).0 same)))

  -- A named account that the bank has is a stake, or the code has panicked.
  named-staked :
      (bank : Bank P) (p : P) (a : Account) (records : List (StakeRecord P))
      (found : List (P × (P × Account)))
      → traverse_some (find_stake_account bank) records ≡ ok found
      → is_named p records ≡ true
      → bank.get_account p ≡ some a
      → (m : Meta) × (s : Stake P) × (state.try_from_slice_unchecked a.bytes ≡ some (staked m s))
  unfolding find_stake_account
  named-staked bank p a [] found h named there = cc
  named-staked bank p a (r ∷ records) found h named there =
      let (o, one, h₁) = >>=-eq-ok (find_stake_account bank r) _ h in
      let (rest, more, _) = >>=-eq-ok (traverse_some (find_stake_account bank) records) _ h₁ in
      elim (Bool-cases (e.beq r.stake_account p)) [
        | inl same ↦
            let here : bank.get_account r.stake_account ≡ some a =
              ap bank.get_account ((e.beq_iff r.stake_account p).0 same) ∙ there in
            entry-staked r.stake_account a (state.try_from_slice_unchecked a.bytes) o
              (rw (find_stake_account, here) at one)
        | inr other ↦ named-staked bank p a records rest more (rw other at named) there
      ]

  pub lookup-Entry :
      (bank : Bank P) (p : P) (records : List (StakeRecord P)) (found : List (P × (P × Account)))
      → traverse_some (find_stake_account bank) records ≡ ok found
      → Entry bank records p (lookup p (collect found))
  lookup-Entry bank p records found h =
      let value = lookup-collect p found ∙ last_value-named bank p records found h in
      elim (Bool-cases (is_named p records)) [
        | inr absent ↦ unnamed absent (value ∙ rw absent)
        | inl named ↦ elim (Option-cases (bank.get_account p)) [
          | inl missing ↦ closed named missing (value ∙ rw (named, held_at, missing))
          | inr (a, there) ↦
              let (m, s, decoded) = named-staked bank p a records found h named there in
              entered a m s named there decoded (value ∙ rw (named, held_at, there, decoded))
        ]
      ]
