-- ===== src/RouterTransaction.antt =====
-- ansible/lib/router_transaction.py: the durable cutover order of a router replacement, and its
-- rollback. `Contract` has the request and the pending record, `Journal` the adapter and the
-- checkpoints, `Cutover` the two commands. The adapter (router_dom0.py, a test's fake) is an
-- environment that answers each call from the history of the calls before it.
pub mod Contract
pub mod Journal
pub mod Cutover
pub mod History
pub mod Exclusion
pub mod Safety
pub mod Progress
mod Tests
