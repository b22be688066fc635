-- ===== src/Lexis.antt =====
-- src/lexis: tokens, the tables of the lexical automaton, and the analyzer that runs them.
pub mod Token
pub mod Jump
pub mod WellFormed
pub mod Automaton
pub mod TableSerializer
pub mod Analyzer
pub mod Compact
pub mod Regex
pub mod Nfa
pub mod EmptyJumps
pub mod Subset
pub mod Minimal
