-- ===== src/TagsCache.antt =====
-- tags_cache.c: the requests for tags of the server's clients, the thread that serves them, and the
-- records that the tags database holds.
pub mod Requests
pub mod Actions
pub mod Choice
pub mod Fairness
pub mod Order
pub mod Reach
pub mod Record
pub mod Database
mod Tests
