-- ===== src/Programs.antt =====
-- bin/: the programs, each a function of commands/ behind its command line.
pub mod GenerateMetas
pub mod GenerateNormalizedStats
pub mod Together
pub mod Test
