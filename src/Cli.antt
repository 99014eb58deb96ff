-- ===== src/Cli.antt =====
-- The command line: src/cli.rs. `pico_args` is outside and enters as an interface.
pub mod Types
pub mod Sanitize
pub mod Duration
pub mod Export
pub mod Command
pub mod Parse
