-- ===== src/Extraction.antt =====
-- The domain package of the service (services/zip-extraction/internal/extraction).
pub mod Errors
pub mod Types
pub mod Describe
pub mod ZipOpen
pub mod Service
