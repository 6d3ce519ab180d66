-- ===== src/Channel.antt =====
-- atchannel.c: one AT command at a time on a channel that also carries unsolicited lines.
-- The children follow the file: Lines (which kind a line is), Process (`processLine`), Write
-- (`writeline`), Command (`at_send_command_full_nolock` and what stands on it).
pub mod Lines
pub mod State
pub mod Process
pub mod Write
pub mod Command
pub mod Reader
pub mod Cme
pub mod Modem
mod Examples
