-- ===== src/Examples.antt =====
-- The theorems at concrete databases, messages and searches.
mod Data
mod Jobs
mod Delivery
mod Search
mod Variants
mod Fusion
mod Answer
mod CrawlData
mod Citations
mod Removal
mod Crawl
mod Reviews
