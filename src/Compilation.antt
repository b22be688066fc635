-- ===== src/Compilation.antt =====
-- src/compilation: the types of a module, the semantic analysis of its expressions, its scopes and
-- imports, and the mangler.
pub mod Types
pub mod Semantics
pub mod Mangler
pub mod Imports
pub mod Scopes
