-- ===== src/Wifi.antt =====
-- pkg/wifi.
pub mod Option
pub mod Regex
pub mod Iwlist
pub mod Config
pub mod Wireless
pub mod Worker
