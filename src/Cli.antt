-- ===== src/Cli.antt =====
-- connector/src/pabel_connector/cli/main.py: what the commands decide and change. What they print is
-- left out, and so is the parsing of the command line.
pub mod Scope
pub mod Selection
pub mod Shell
pub mod Install
pub mod Uninstall
pub mod Doctor
