-- ===== src/Lib.antt =====
-- Models of the Linux drivers of an AT91SAM9X25 board, and what holds of them.
--
-- The drivers are independent of one another. What they share is the kernel: its error numbers, its
-- conversions between integer widths, its ioctl encoding and its registration of small devices
-- (Kernel). Prelude holds the lists, tests and arithmetic lemmas that all of them use.
--
-- * Flash, flash/at91flash.c and flash/at91flash.h: a character device over the third MTD
--   partition. Flash.Board is the MTD layer, the allocator and the user's memory, all of them
--   parameters; IsSized is what is documented of their sizes, and Flash.Chip.IsHealthy what is
--   documented of a chip that works. Flash.State has the static variables bbt and ebcnt, the
--   position of the one open file and the number of memory blocks held, and the commands on it,
--   which may return early, fault (an access outside an array) or hang (a loop out of fuel). Blocks
--   is is_block_bad, scan_for_bad_eraseblocks and erase_eraseblock; Search the four loops that skip
--   bad blocks; Tape the device as its users are to see it, the bytes of its good blocks one after
--   another; Session the calls of the device one after another, as a step relation; Seek, Read,
--   Write and Ioctl the handlers at91flash_lseek, at91flash_read, at91flash_write and
--   at91flash_ioctl; Init the loading and unloading.
-- * Adc, at91adc/at91adc.c: the eleven ring buffers and at91adc_appidx; at91tc0_isr, at91adc_read
--   (Adc); at91adc_init and at91adc_exit as a ledger of what is acquired and released, with the
--   accesses to the hardware (Adc.Load). Adc.Racing is the read with interrupts before any of its
--   loads. In these the registers of the converter are a function of the channel. Adc.Registers has
--   the accesses to the converter and the timer that loading makes, Adc.Converter the converter as
--   its data sheet has it, a parameter, and Adc.Device the driver on top of it, with the ten rounds
--   that the interrupt waits for a conversion.
-- * Adc.Original, at91adc/at91adc原版.c: the driver of two channels that at91adc.c was made from; its
--   read takes, for each sample, the interrupts that come before it. Adc.Original.Load is its
--   loading and unloading. Adc.Store is what the two drivers share.
-- * Pins and Gpio, at91gpio/at91gpio.c and at91gpio/at91gpio.h: the numbering of pins by
--   get_port_pin, which ds18b20/ds18b20.c repeats, and at91gpio_ioctl over the kernel's pin
--   controller, a parameter.
-- * Ds18b20, ds18b20/ds18b20.c and ds18b20/ds18b20.h: what is done with the pin is a list of events
--   (output, input, level, wait, sense), and the sensor a function of the events before; on these
--   stand ds18b20_write_byte, ds18b20_read_byte, ds18b20_reset, ds18b20_proc, ds18b20_read and
--   ds18b20_ioctl. Ds18b20.Crc has CrcTable and crc_check; Line and Conversation are the other end
--   of the line as the sensor's data sheet has it.
-- * Mc323, cdma-mc323/at91mc323.c and cdma-mc323/at91mc323.h: the four lines of the modem and the
--   steps that the commands take on them.
-- * Programs, what tries the drivers out: the menu (Menu), the terminal's settings (Terminal) and
--   the tests of the modem (Modem), of the flash (NandTest), of the pins (GpioTest), of the
--   temperature sensor (SensorTest), of the converter (AdcTest, with at91adc/adc_demo.c) and of the
--   clock (ClockTest, with at91rtc/rtc_demo.c) of hwtest/hwtest.c, all but the first on top of the
--   models of the drivers or of a clock that is a parameter, at91gpio/at91gpio_demo.c and
--   cdma-mc323/mc323_demo.c (PinDemo), Memory being the memory of the two that test the flash,
--   flash/flash_demo.c (FlashArgs its argument checks, FlashDemo its test of the device), and
--   temp_calculate of ds18b20/ds18b20_demo.c.
--
-- Integers are natural numbers with their wrap-around written out: u32 and u64 for the conversions,
-- sge for the comparison of two int; a ten-bit mask is the remainder by 1024. The search loops run
-- on fuel, one round for each block and one more, which is enough: a round either ends the loop or
-- moves on by one block, and the block after the last one ends it. The other loops are structural.
--
-- Not modelled: the messages to the log, the delays other than those between the steps on a line,
-- that clk_get may give no clock, which the drivers do not look at, the static variables pgsize and
-- pgcnt, which nothing reads, and concurrent calls of one driver (but interrupts during a read are,
-- in Adc.Racing and Adc.Original). The sum of a pin and PIN_BASE is taken without overflow, which C
-- leaves undefined. The main of ds18b20/ds18b20_demo.c does not compile against its header and does
-- what the sensor's test of hwtest does; a flag of the terminal that the program does not name is
-- not in its settings. A copy of the U-Boot header of the flash (flash/flash.h), the MTD headers
-- (flash/include) and the file that the kernel build generates (flash/at91flash.mod.c) are other
-- projects' code.
pub mod Prelude
pub mod Kernel
pub mod Flash
pub mod Adc
pub mod Pins
pub mod Ds18b20
pub mod Gpio
pub mod Mc323
pub mod Programs
