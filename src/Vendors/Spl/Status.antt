-- ===== src/Vendors/Spl/Status.antt =====
-- vendors/spl.rs: the status of a validator's entry, and the byte that holds it.
use stake_pool_tools.Base.{ℕ, suc, zero, String, Option, none, some, ◌≡◌, refl, arith, ◌↔◌}

pub data StakeStatus : Type 0 where
  active deactivating_transient ready_for_removal : StakeStatus
  deactivating_validator deactivating_all : StakeStatus

-- The derived `Debug`, which `format!("{:?}")` prints.
abbrev pub debug : StakeStatus → String
debug active = "Active"
debug deactivating_transient = "DeactivatingTransient"
debug ready_for_removal = "ReadyForRemoval"
debug deactivating_validator = "DeactivatingValidator"
debug deactivating_all = "DeactivatingAll"

-- `impl Default`.
abbrev pub default : StakeStatus
default = active

pub record PodStakeStatus : Type 0 where
  pub byte : ℕ

-- The derived `FromPrimitive` and `ToPrimitive`.
abbrev pub from_u8 : ℕ → Option StakeStatus
from_u8 zero = some active
from_u8 (suc zero) = some deactivating_transient
from_u8 (suc (suc zero)) = some ready_for_removal
from_u8 (suc (suc (suc zero))) = some deactivating_validator
from_u8 (suc (suc (suc (suc zero)))) = some deactivating_all
from_u8 (suc (suc (suc (suc (suc n))))) = none

abbrev pub to_u8 : StakeStatus → ℕ
to_u8 active = 0
to_u8 deactivating_transient = 1
to_u8 ready_for_removal = 2
to_u8 deactivating_validator = 3
to_u8 deactivating_all = 4

-- `TryFrom<PodStakeStatus>`; `none` is `InvalidAccountData`.
unfoldable pub try_from : PodStakeStatus → Option StakeStatus
try_from pod = from_u8 pod.byte

-- `From<StakeStatus>`.
unfoldable pub to_pod : StakeStatus → PodStakeStatus
to_pod status = record { byte = to_u8 status }

from_u8-to_u8 : (s : StakeStatus) → from_u8 (to_u8 s) ≡ some s
from_u8-to_u8 active = refl
from_u8-to_u8 deactivating_transient = refl
from_u8-to_u8 ready_for_removal = refl
from_u8-to_u8 deactivating_validator = refl
from_u8-to_u8 deactivating_all = refl

from_u8-some : (n : ℕ) (s : StakeStatus) → from_u8 n ≡ some s → to_u8 s ≡ n
from_u8-some zero s h = ground arith
from_u8-some (suc zero) s h = ground arith
from_u8-some (suc (suc zero)) s h = ground arith
from_u8-some (suc (suc (suc zero))) s h = ground arith
from_u8-some (suc (suc (suc (suc zero)))) s h = ground arith
from_u8-some (suc (suc (suc (suc (suc n))))) s h = cc

-- A status that is stored in the byte is read back, and a byte that is read as a status is the one
-- in which that status is stored.
pub try_from-to_pod :
    (pod : PodStakeStatus) (s : StakeStatus) → (try_from pod ≡ some s) ↔ (to_pod s ≡ pod)
unfolding try_from to_pod
try_from-to_pod pod s =
    (λ h. ground (arith, from_u8-some pod.byte s h), λ h. rw (← h) (from_u8-to_u8 s))
