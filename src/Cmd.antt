-- ===== src/Cmd.antt =====
-- cmds/webboot: the program webboot.
pub mod Types
pub mod Utils
pub mod App
pub mod Download
pub mod Network
pub mod Mirrors
pub mod Boot
pub mod Main
pub mod Counter
