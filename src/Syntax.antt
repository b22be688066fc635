-- ===== src/Syntax.antt =====
-- src/syntax: the parser on tables that are given, their serializer, and the grammar with its checks.
pub mod Recovery
pub mod Parser
pub mod TokensBitset
pub mod TableSerializer
pub mod Grammar
