-- ===== src/Transaction.antt =====
-- core/config_transaction.py: one verified configuration deployment over any transport.
pub mod Interface
pub mod Reading
pub mod Waiting
pub mod Ordering
pub mod Recovery
pub mod Publishing
pub mod Run
pub mod Quiet
pub mod Guarantees
