-- ===== src/Cli.antt =====
-- crates/heyl-cli/src: what the commands print.
pub mod Output
pub mod Commands
