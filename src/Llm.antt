-- ===== src/Llm.antt =====
-- internal/llm: from a model's reply to commitment drafts.
pub mod Context
pub mod Parse
pub mod Prompt
pub mod Extractor
pub mod Router
pub mod Owned
