-- ===== src/Flash.antt =====
-- The flash character device, flash/at91flash.c.
pub mod Board
pub mod State
pub mod Ensures
pub mod Chip
pub mod Blocks
pub mod Search
pub mod Tape
pub mod Seek
pub mod Read
pub mod Write
pub mod Ioctl
pub mod Session
pub mod RoundTrip
pub mod Init
pub mod Tests
