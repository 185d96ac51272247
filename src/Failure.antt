-- ===== src/Failure.antt =====
-- core/failure_copy.py and the message types of core/types.py: the headers of a failed delivery,
-- what is read from them, and the copies that go to a delay queue or a dead-letter queue.
pub mod Headers
pub mod Classify
pub mod Sanitizer
pub mod Copy
pub mod Bounded
pub mod Kept
