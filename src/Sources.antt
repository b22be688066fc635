-- ===== src/Sources.antt =====
-- src/sources: positions in the loaded texts, and views on the texts.
pub mod Location
pub mod View
pub mod Manager
