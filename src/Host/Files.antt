-- ===== src/Host/Files.antt =====
-- Files (`std::fs`, `std::io::BufWriter`), environment variables, and serde_json. `S` is the state of
-- the disk and `D` the type of paths; `none` is an error that the call returns.
use stake_pool_tools.Base.{ℕ, ◌≡◌, ◌≢◌, Option, some, List, String}
use stake_pool_tools.Solana.{RpcClient}

pub record FileSystem (S D : Type 0) : Type 0 where
  -- `&str` as a `Path`, and `Path::join` with the bytes of a name
  pub as_path : String → D
  pub join : D → List ℕ → D
  -- `Path::to_str`
  pub to_str : D → Option String
  pub canonicalize : S → D → Option D
  -- `File::open`, with what can be read from the file
  pub open_file : S → D → Option (List ℕ)
  -- `File::create`, `write_all` through a `BufWriter` of the file, and `flush`
  pub create : S → D → Option S
  pub write_all : S → D → List ℕ → Option S
  pub flush : S → D → Option S

-- `serde_json::to_string_pretty`, as bytes, and `serde_json::from_reader`.
pub record Json (A : Type 0) : Type 0 where
  pub to_string_pretty : A → Option (List ℕ)
  pub from_reader : List ℕ → Option A

-- What a value is written as is read back as the value. This fails for a double that is infinite or
-- no number, which serde_json writes as `null`.
abbrev pub ReadsBack : {A : Type 0} → Json A → A → Type 0
ReadsBack {A} json a =
    (bytes : List ℕ) → json.to_string_pretty a ≡ some bytes → json.from_reader bytes ≡ some a

-- A file that was created, written and flushed holds what was written, and no other file changes.
pub record Writes {S D : Type 0} (files : FileSystem S D) : Type 0 where
  pub holds :
      (s s' s'' t : S) (p : D) (bytes : List ℕ)
      → files.create s p ≡ some s'
      → files.write_all s' p bytes ≡ some s''
      → files.flush s'' p ≡ some t
      → files.open_file t p ≡ some bytes
  pub others :
      (s s' s'' t : S) (p q : D) (bytes : List ℕ)
      → files.create s p ≡ some s'
      → files.write_all s' p bytes ≡ some s''
      → files.flush s'' p ≡ some t
      → q ≢ p
      → files.open_file t q ≡ files.open_file s q

-- The files, `std::env::var` and `RpcClient::new`.
pub record Machine (P S D : Type 0) : Type 0 where
  pub files : FileSystem S D
  pub env_var : String → Option String
  pub connect : String → RpcClient P
