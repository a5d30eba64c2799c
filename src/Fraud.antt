-- ===== src/Fraud.antt =====
-- Fraud detection: back/src/modules/fraud.
pub mod Types
pub mod Ring
pub mod Buckets
pub mod Graph
pub mod Features
pub mod Classifier
pub mod Engine
pub mod Flags
