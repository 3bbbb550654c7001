-- ===== src/Retrieval.antt =====
-- app/core/retrieval: the hybrid search, by its parts.
pub mod Items
pub mod Ranking
pub mod Variants
pub mod Fusion
pub mod Expansion
pub mod Reranker
pub mod Search
pub mod Selection
pub mod Retry
pub mod Limits
pub mod Provenance
pub mod Readiness
pub mod Neighbours
pub mod Abstention
pub mod Promotion
pub mod Ranks
pub mod Coverage
pub mod Best
pub mod Merging
