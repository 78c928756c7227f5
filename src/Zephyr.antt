-- ===== src/Zephyr.antt =====
-- The device drivers that the labs call and do not implement, as interfaces.
pub mod Eeprom
pub mod Memory
pub mod Flash
pub mod Cells
pub mod I2c
pub mod RingBuf
pub mod Spi
