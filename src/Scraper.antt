-- ===== src/Scraper.antt =====
-- src/modules/content/scraper.service.ts: pages are fetched with every hop checked and the
-- connection pinned to the address that was checked.
pub mod Address
pub mod Robots
pub mod Guard
pub mod Fetch
pub mod Tests
