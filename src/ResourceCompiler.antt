-- ===== src/ResourceCompiler.antt =====
-- ansible/lib/platform_resource_compiler.py: the rules of the applications, and the hosts that get
-- them.
pub mod Rules
pub mod Ledger
pub mod Hosts
pub mod Scopes
mod Tests
