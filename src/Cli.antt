-- ===== src/Cli.antt =====
-- crates/mirrorlane-cli: the ports that a command wires, the commands over them, the settings that they
-- take from flags, environment and configuration, and what each command prints.
pub mod Context
pub mod Commands
pub mod Broker
pub mod Config
pub mod Projector
pub mod Settings
pub mod Ingest
pub mod Report
pub mod Queue
