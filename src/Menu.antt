-- ===== src/Menu.antt =====
-- pkg/menu/menu.go.
pub mod Event
pub mod Ui
pub mod Key
pub mod TextInput
pub mod Wrap
pub mod Message
pub mod Options
pub mod Entries
pub mod Confirm
pub mod Progress
pub mod Taking
