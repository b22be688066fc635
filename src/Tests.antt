-- ===== src/Tests.antt =====
-- Runs of the models on small inputs, and the theorems applied to them.
mod Lexis
mod Automaton
mod Bitset
mod Compilation
mod Syntax
mod Sources
mod Serializers
mod Grammar
mod Regex
mod Mangler
mod Imports
mod Scopes
mod Construction
