-- ===== src/Installers.antt =====
-- connector/src/pabel_connector/installers: how each agent's own configuration files are written,
-- checked and cleaned.
pub mod Disk
pub mod Hooks
pub mod Setting
pub mod Registry
pub mod Wired
pub mod Points
pub mod Edited
pub mod Managed
pub mod Opencode
pub mod CodexFamily
