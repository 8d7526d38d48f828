-- ===== src/Commands/Pipeline/Names.antt =====
-- commands/generate_normalized_stats.rs: the names of the metadata files.
use stake_pool_tools.Base.{
  ℕ, ◌-◌, ◌^◌, ◌<◌, ◌≡◌, ap, sym, ◌∙◌, List, ◌++◌, arith, length, take, drop, length-append,
  take-append, codes, decimal, value_from, value_from-decimal,
}
use stake_pool_tools.Commands.Stats.Stage.{metas_file_name}

-- The epoch that a file's name stands for: what is left of it without prefix and suffix.
abbrev epoch_of : List ℕ → ℕ
epoch_of name =
    let rest = drop (length (codes "stake_pool_metas_")) name in
    value_from 0 (take (length rest - 5) rest)

epoch_of-metas_file_name : (epoch : ℕ) → epoch < 2 ^ 64 → epoch_of (metas_file_name epoch) ≡ epoch
unfolding metas_file_name
epoch_of-metas_file_name epoch h =
    let number = decimal epoch in
    let count : length (number ++ codes ".json") - 5 ≡ length number =
      omega (arith, length-append number (codes ".json")) in
    ap (λ ds. value_from 0 ds)
      (ap (λ n. take n (number ++ codes ".json")) count ∙ take-append number (codes ".json"))
    ∙ value_from-decimal epoch h

-- Two epochs of 64 bits never have their metadata in one file.
pub metas_file_name-injective :
    (a b : ℕ) → a < 2 ^ 64 → b < 2 ^ 64 → metas_file_name a ≡ metas_file_name b → a ≡ b
metas_file_name-injective a b p q h =
    sym (epoch_of-metas_file_name a p) ∙ ap epoch_of h ∙ epoch_of-metas_file_name b q
