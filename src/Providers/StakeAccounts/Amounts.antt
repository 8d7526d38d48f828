-- ===== src/Providers/StakeAccounts/Amounts.antt =====
-- providers/spl.rs and socean.rs: amounts that the two stake accounts of a validator count for, in
-- the states that `Stakes` and `Moves` list, and what the reserve counts for.
use stake_pool_tools.Base.{
  suc, List, [], ◌∷◌, traverse, length, sum, sum_of, ℕ, ◌+◌, ◌-◌, ◌≤◌, ◌<◌, ◌≡◌, refl, ap, sym, ◌∙◌,
  true, false, Option, none, some, Outcome, ok, panic, unwrap_failed, if◌then◌else◌, arith, leb,
  le→leb, u64_mod, checked_sub-some,
}
use stake_pool_tools.Solana.{Account, Meta, Stake, StakeState, initialized, Borsh, Bank}
use stake_pool_tools.Vendors.Spl.{ValidatorStakeInfo, minimum_reserve_lamports}
use stake_pool_tools.Vendors.Spl.Status.{PodStakeStatus, StakeStatus, try_from}
use stake_pool_tools.Providers.StakeAccounts.{
  is_active, is_open, active_part, transient_part, reserve_part,
}
use stake_pool_tools.Providers.StakeAccounts.Active.{active_part_lem}
use stake_pool_tools.Providers.StakeAccounts.Sums.{HasBegun, Holds, transient_part-sum}

module _ (P : Type 0) ⦃borsh : Borsh (StakeState P)⦄ where
  -- A validator's own stake account counts for its lamports less the rent if the validator is
  -- active, and for nothing if there is no such account, if it is shut, or if the validator has
  -- another status.
  pub data Stakes (account : Option Account) (status : StakeStatus) (amount : ℕ) : Type 0 where
    missing : account ≡ none → amount ≡ 0 → Stakes account status amount
    shut :
        (a : Account)
        → account ≡ some a
        → is_open a ≡ false
        → amount ≡ 0
        → Stakes account status amount
    inactive :
        (a : Account) (m : Meta) (s : Stake P)
        → account ≡ some a
        → Holds a m s
        → is_active status ≡ false
        → amount ≡ 0
        → Stakes account status amount
    staking :
        (a : Account) (m : Meta) (s : Stake P)
        → account ≡ some a
        → Holds a m s
        → is_active status ≡ true
        → m.rent_exempt_reserve + s.delegation.stake ≤ a.lamports
        → amount + m.rent_exempt_reserve ≡ a.lamports
        → Stakes account status amount

  -- A transient account counts for its rent and stake once it has begun to be activated or
  -- deactivated, and for nothing if there is no such account or if it is shut.
  pub data Moves (epoch : ℕ) (account : Option Account) (amount : ℕ) : Type 0 where
    missing : account ≡ none → amount ≡ 0 → Moves epoch account amount
    shut :
        (a : Account)
        → account ≡ some a
        → is_open a ≡ false
        → amount ≡ 0
        → Moves epoch account amount
    moving :
        (a : Account) (m : Meta) (s : Stake P)
        → account ≡ some a
        → Holds a m s
        → HasBegun epoch s.delegation
        → amount ≡ m.rent_exempt_reserve + s.delegation.stake
        → Moves epoch account amount

  active_part-if :
      (a : Account) (pod : PodStakeStatus) (status : StakeStatus) (m : Meta) (s : Stake P)
      → Holds a m s
      → try_from pod ≡ some status
      → let taken = s.delegation.stake + m.rent_exempt_reserve in
        active_part P (some a) pod ≡ (
          if is_active status
          then (if leb taken a.lamports
              then ok (s.delegation.stake, a.lamports - taken)
              else panic unwrap_failed)
          else ok (0, 0))
  active_part-if a pod status m s h known =
      active_part_lem P a pod status m s h.opened h.decoded known (omega (arith, h.word))

  pub active_part-Stakes :
      (account : Option Account) (pod : PodStakeStatus) (status : StakeStatus) (amount : ℕ)
      → try_from pod ≡ some status
      → Stakes account status amount
      → (r : ℕ × ℕ) × (active_part P account pod ≡ ok r) × (r.0 + r.1 ≡ amount)
  unfolding active_part
  active_part-Stakes account pod status amount known (Stakes.missing e z) =
      ((0, 0), rw e, omega arith)
  active_part-Stakes account pod status amount known (Stakes.shut a e closed z) =
      ((0, 0), rw (e, closed), omega arith)
  active_part-Stakes account pod status amount known (inactive a m s e h other z) =
      ((0, 0), rw e (active_part-if a pod status m s h known ∙ rw other refl), omega arith)
  active_part-Stakes account pod status amount known (staking a m s e h here covered sum) =
      let taken = s.delegation.stake + m.rent_exempt_reserve in
      let enough : leb taken a.lamports ≡ true = le→leb _ _ (omega (arith, covered)) in
      (
        (s.delegation.stake, a.lamports - taken),
        rw e (active_part-if a pod status m s h known ∙ rw (here, enough) refl),
        omega (arith, covered, sum),
      )

  pub transient_part-Moves :
      (epoch : ℕ) (account : Option Account) (amount : ℕ)
      → Moves epoch account amount
      → (r : ℕ × ℕ) × (transient_part P epoch account ≡ ok r) × (r.0 + r.1 ≡ amount)
  unfolding transient_part
  transient_part-Moves epoch account amount (Moves.missing e z) = ((0, 0), rw e, omega arith)
  transient_part-Moves epoch account amount (Moves.shut a e closed z) =
      ((0, 0), rw (e, closed), omega arith)
  transient_part-Moves epoch account amount (moving a m s e h begun z) =
      let (r, returned, sum) = transient_part-sum epoch a m s h begun in
      (r, rw e returned, sum ∙ sym z)

  -- The reserve counts for its lamports less the rent.
  pub reserve_part-initialized :
      (account : Account) (m : Meta)
      → borsh.try_from_slice_unchecked account.bytes ≡ some (initialized m)
      → m.rent_exempt_reserve < u64_mod
      → m.rent_exempt_reserve ≤ account.lamports
      → reserve_part P account ≡ ok (account.lamports - m.rent_exempt_reserve)
  unfolding reserve_part
  reserve_part-initialized account m decoded word covered =
      let least : minimum_reserve_lamports m ≡ m.rent_exempt_reserve = omega arith in
      rw (decoded, least, checked_sub-some account.lamports m.rent_exempt_reserve covered)

module _ {P : Type 0} ⦃state : Borsh (StakeState P)⦄ where
  -- A validator whose status is known and whose two stake accounts count for an amount together.
  pub record Counts (bank : Bank P) (own_address other_address : P) (info : ValidatorStakeInfo P)
      (amount : ℕ) : Type 0 where
    pub status : StakeStatus
    pub own : ℕ
    pub other : ℕ
    pub known : try_from info.status ≡ some status
    pub stakes : Stakes P (bank.get_account own_address) status own
    pub moves : Moves P bank.epoch (bank.get_account other_address) other
    pub both : amount ≡ own + other

  -- Each validator of a list counts for the amount at its place.
  abbrev pub CountEach :
      Bank P
      → (ValidatorStakeInfo P → P)
      → (ValidatorStakeInfo P → P)
      → List (ValidatorStakeInfo P)
      → List ℕ
      → Type 0
  CountEach bank active transient [] [] = Unit
  CountEach bank active transient [] (n ∷ ns) = ⊥
  CountEach bank active transient (info ∷ infos) [] = ⊥
  CountEach bank active transient (info ∷ infos) (n ∷ ns) =
      Counts bank (active info) (transient info) info n × CountEach bank active transient infos ns

  -- Validators that count for amounts are built one by one, and their parts hold the amounts.
  pub traverse-CountEach :
      {V : Type 0} (bank : Bank P) (active transient : ValidatorStakeInfo P → P)
      (build : ValidatorStakeInfo P → Outcome V) (lamports : V → ℕ)
      → ((info : ValidatorStakeInfo P) (n : ℕ)
          → Counts bank (active info) (transient info) info n
          → (v : V) × (build info ≡ ok v) × (lamports v ≡ n))
      → (infos : List (ValidatorStakeInfo P)) (amounts : List ℕ)
      → CountEach bank active transient infos amounts
      → (vs : List V) × (traverse build infos ≡ ok vs)
        × (length vs ≡ length infos)
        × (sum_of lamports vs ≡ sum amounts)
  traverse-CountEach bank active transient build lamports one [] [] h = ([], refl, refl, refl)
  traverse-CountEach bank active transient build lamports one [] (n ∷ ns) h = elim h [ ]
  traverse-CountEach bank active transient build lamports one (info ∷ infos) [] h = elim h [ ]
  traverse-CountEach bank active transient build lamports one (info ∷ infos) (n ∷ ns) (h, hs) =
      let (v, e, held) = one info n h in
      let (vs, e', count, all) =
        traverse-CountEach bank active transient build lamports one infos ns hs in
      (v ∷ vs, rw (e, e'), ap suc count, omega (arith, held, all))
