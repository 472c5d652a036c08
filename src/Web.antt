-- ===== src/Web.antt =====
-- web.py and queueing.py: the handlers of the API over the services, and what they publish.
pub mod Handlers
pub mod Pages
pub mod Network
pub mod Reads
pub mod Counts
pub mod Total
