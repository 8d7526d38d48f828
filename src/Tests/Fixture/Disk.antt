-- ===== src/Tests/Fixture/Disk.antt =====
-- A disk that holds files by their paths, and a machine and a ledger with the small chain.
use stake_pool_tools.Base.{
  ℕ, String, Bool, true, false, Option, none, some, List, [], ◌∷◌, ◌++◌, ◌≡◌, ◌≢◌, ◌↔◌, refl, ap,
  sym, ◌∙◌, ◌==◌, Bool-cases, inl, inr, if◌then◌else◌, arith, codes, length, drop, drop-append,
}
use stake_pool_tools.Base.Dict.{Eq, Dict, insert, lookup, lookup-insert}
use stake_pool_tools.Host.{FileSystem, Json, Machine, Writes, Ledger, ReadsBack}
use stake_pool_tools.Commands.Stats.{EpochStakePoolStatsCollection}
use stake_pool_tools.Providers.Dispatch.{StakePoolsMetas}
use stake_pool_tools.Commands.Stats.Stage.{metas_file_name}
use stake_pool_tools.Solana.{Bank}
use stake_pool_tools.Commands.Pipeline.Written.{JoinsNames}
use stake_pool_tools.Tests.Fixture.Chain.{bank, rpc}
use stake_pool_tools.Tests.Results.{metas}

abbrev list_beq : List ℕ → List ℕ → Bool
list_beq [] [] = true
list_beq [] (y ∷ ys) = false
list_beq (x ∷ xs) [] = false
list_beq (x ∷ xs) (y ∷ ys) = let rest = list_beq xs ys in if x == y then rest else false

pub list_beq_iff : (xs ys : List ℕ) → (list_beq xs ys ≡ true) ↔ (xs ≡ ys)
list_beq_iff [] [] = (λ h. refl, λ h. refl)
list_beq_iff [] (y ∷ ys) = (λ h. cc, λ h. cc)
list_beq_iff (x ∷ xs) [] = (λ h. cc, λ h. cc)
list_beq_iff (x ∷ xs) (y ∷ ys) = grind (arith, list_beq_iff xs ys)

instance abbrev pub path_eq : Eq (List ℕ)
path_eq = record { beq = list_beq; beq_iff = list_beq_iff }

abbrev pub Files : Type 0
Files = Dict (List ℕ) (List ℕ)

abbrev pub files : FileSystem Files (List ℕ)
files = record {
  as_path = codes;
  join = λ dir name. dir ++ (b'/' ∷ name);
  to_str = λ path. some "a path";
  canonicalize = λ disk path. some path;
  open_file = λ disk path. lookup path disk;
  create = λ disk path. some (insert path [] disk);
  write_all = λ disk path bytes. some (insert path bytes disk);
  flush = λ disk path. some disk;
}

same_path : (p : List ℕ) → list_beq p p ≡ true
same_path p = (list_beq_iff p p).1 refl

other_path : (p q : List ℕ) → q ≢ p → list_beq p q ≡ false
other_path p q apart = elim (Bool-cases (list_beq p q)) [
  | inl same ↦ elim (apart (sym ((list_beq_iff p q).0 same))) [ ]
  | inr differ ↦ differ
]

-- What is read from the disk on which a file was created and written.
written-at :
    (s : Files) (p q bytes : List ℕ)
    → lookup q (insert p bytes (insert p [] s)) ≡ (if list_beq p q then some bytes else lookup q s)
written-at s p q bytes =
    grind (arith, lookup-insert p q bytes (insert p [] s), lookup-insert p q [] s)

pub files-Writes : Writes files
files-Writes = record {
  holds = λ s s' s'' t p bytes created written flushed.
      let on : insert p bytes (insert p [] s) ≡ t = cc in
      rw (← on, written-at s p p bytes, same_path p);
  others = λ s s' s'' t p q bytes created written flushed apart.
      let on : insert p bytes (insert p [] s) ≡ t = cc in
      rw (← on, written-at s p q bytes, other_path p q apart);
}

pub files-JoinsNames : (dir : List ℕ) → JoinsNames files dir
files-JoinsNames dir a b same =
    let behind : b'/' ∷ metas_file_name a ≡ b'/' ∷ metas_file_name b =
      sym (drop-append dir (b'/' ∷ metas_file_name a))
      ∙ ap (drop (length dir)) same
      ∙ drop-append dir (b'/' ∷ metas_file_name b) in
    cc

-- The environment names no endpoint.
abbrev pub machine : Machine String Files (List ℕ)
machine = record { files = files; env_var = λ name. none; connect = λ url. rpc }

abbrev pub ledger : Ledger String (List ℕ) ℕ ℕ (Bank String)
ledger = record {
  max_genesis_archive_unpacked_size = 10_485_760;
  stake_program_id = "stake program";
  open_genesis_config = λ path size. some size;
  open_with_options = λ path options. some 0;
  load_bank_forks = λ genesis store account_paths config indexes. some bank;
  working_bank = λ forks. forks;
}

abbrev pub metas_6 : StakePoolsMetas ℕ
metas_6 = record metas { epoch = 6; slot = 69 }

-- Metadata is written as its epoch and slot, and read back where it is one of two.
abbrev pub decode : List ℕ → Option (StakePoolsMetas ℕ)
decode text =
    if list_beq text (7 ∷ 79 ∷ [])
    then some metas
    else if list_beq text (6 ∷ 69 ∷ [])
    then some metas_6
    else none

abbrev pub metas_json : Json (StakePoolsMetas ℕ)
metas_json = record { to_string_pretty = λ m. some (m.epoch ∷ m.slot ∷ []); from_reader = decode }

abbrev pub stats_json : Json (EpochStakePoolStatsCollection ℕ)
stats_json = record { to_string_pretty = λ c. some (c.epoch ∷ []); from_reader = λ text. none }

pub metas-ReadsBack : ReadsBack metas_json metas
metas-ReadsBack text h = let here : 7 ∷ 79 ∷ [] ≡ text = cc in rw (← here)

abbrev pub metas_path : ℕ → List ℕ
metas_path epoch = codes "metas" ++ (b'/' ∷ metas_file_name epoch)

-- The epoch before has its metadata.
abbrev pub disk : Files
disk = (codes "metas/stake_pool_metas_6.json", 6 ∷ 69 ∷ []) ∷ []

abbrev pub disk_7 : Files
disk_7 = (codes "metas/stake_pool_metas_7.json", 7 ∷ 79 ∷ []) ∷ []

-- What the first stage leaves.
abbrev pub disk_6_7 : Files
disk_6_7 =
    (codes "metas/stake_pool_metas_6.json", 6 ∷ 69 ∷ [])
    ∷ (codes "metas/stake_pool_metas_7.json", 7 ∷ 79 ∷ [])
    ∷ []

-- The file of the epoch after is cut off.
abbrev pub broken_8 : Files
broken_8 =
    (codes "metas/stake_pool_metas_7.json", 7 ∷ 79 ∷ [])
    ∷ (codes "metas/stake_pool_metas_8.json", [])
    ∷ []
