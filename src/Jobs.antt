-- ===== src/Jobs.antt =====
-- app/stores/job_store.py: the ingest jobs and the leases of the workers that run them. A method
-- takes the time and the settings that it reads.
pub mod Claim
pub mod Leased
pub mod Publication
pub mod Recovery
pub mod Rows
pub mod Recovered
pub mod Announced
