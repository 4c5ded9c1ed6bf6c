-- ===== src/Lexicon.antt =====
-- crates/lexicon/src/lib.rs: lexicon entries, prompt selection and conservative corrections.
pub mod Entry
pub mod Prompt
pub mod Correction
