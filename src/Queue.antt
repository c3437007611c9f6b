-- ===== src/Queue.antt =====
-- ledger/queue.py `DurableCheckQueue`: the queue of checks, whose state is read from the ledger.
pub mod Exec
pub mod Jobs
pub mod Blocks
pub mod Submit
pub mod Moves
pub mod Results
pub mod Complete
pub mod Withdraw
pub mod Invalidate
pub mod Calls
pub mod Order
pub mod Pending
pub mod Submitted
pub mod Used
pub mod Harmless
pub mod Machine
pub mod Read
pub mod States
pub mod Reconciled
