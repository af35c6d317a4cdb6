-- ===== src/Dashboard.antt =====
-- fluxguard_dashboard.py: the metrics that it fetches and scrapes, the ring buffer, and the loop.
pub mod Words
pub mod Scrape
pub mod Ring
pub mod Live
pub mod Fetch
