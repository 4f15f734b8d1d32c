-- ===== src/VmUpdate.antt =====
-- ansible/roles/vm-update-recovery/files/vm_update_engine.py: the box-side transaction that
-- replaces a guest's disks. `Request` has the requests, `Inspection` what is read of the host's
-- disks and guests, `Journal` the stored state and the assignment, `Steps` the stages.
pub mod Request
pub mod Inspection
pub mod Guest
pub mod Journal
pub mod Steps
pub mod Recovery
pub mod History
pub mod Order
pub mod Safety
pub mod Commitment
pub mod Refusals
mod Tests
