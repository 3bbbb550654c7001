-- ===== src/Generation.antt =====
-- app/core/generation: the evidence that an answer is generated from.
pub mod Context
pub mod Truncation
pub mod Budget
pub mod Selected
pub mod Citations
pub mod Marks
pub mod Sets
pub mod Cited
pub mod Answer
