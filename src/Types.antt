-- ===== src/Types.antt =====
-- The records that the frontend exchanges with the service: frontend/src/features/*/types.ts.
pub mod Datasets
pub mod Endpoints
pub mod Runs
pub mod Analytics
