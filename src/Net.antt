-- ===== src/Net.antt =====
-- net: the text of requests and replies, and the replies of the handlers.
pub mod Link
pub mod Response
mod Tests
