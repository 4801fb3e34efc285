-- ===== src/Tests.antt =====
-- Runs of the code at fixed inputs, and the theorems at inputs that meet their hypotheses.
mod Menu
mod Bootiso
mod Wifi
mod Cmd
mod Disk
mod Counter
mod Builder
mod Dhclient
mod Wireless
mod Progress
mod Navigation
