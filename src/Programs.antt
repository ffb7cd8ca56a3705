-- ===== src/Programs.antt =====
-- The programs that try the drivers out: the demos and hwtest/hwtest.c.
pub mod Temperature
pub mod Memory
pub mod Menu
pub mod Modem
pub mod FlashArgs
pub mod FlashDemo
pub mod Terminal
pub mod AdcTest
pub mod ClockTest
pub mod GpioTest
pub mod NandTest
pub mod PinDemo
pub mod SensorTest
mod Tests
