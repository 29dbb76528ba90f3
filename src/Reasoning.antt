-- ===== src/Reasoning.antt =====
-- Retrieval (services/ai_reasoning): how the embedding service cuts a long text.
pub mod Chunks
pub mod ChunksLaws
mod Tests
