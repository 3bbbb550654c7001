-- ===== src/Crawl.antt =====
-- app/stores/crawler_store.py: the jobs of the crawler, its sources' runs, the review of what it
-- found and its records of addresses.
pub mod Values
pub mod Rows
pub mod Jobs
pub mod Control
pub mod Review
pub mod Claims
pub mod Cleanup
pub mod Urls
pub mod Calls
pub mod Machine
pub mod Changes
pub mod Sweeps
pub mod Tracks
pub mod Runs
pub mod Lifecycle
pub mod Fencing
pub mod Restart
pub mod Recovery
pub mod Overlap
pub mod Exclusive
pub mod Reviewers
pub mod Merging
