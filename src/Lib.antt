-- ===== src/Lib.antt =====
-- Verification library of the Cortex-M3 embedded debug labs.
--
-- The repository is a series of labs. Each lab is a small firmware program, and its
-- core is a component that is written apart from the demonstration: a log in
-- persistent memory, a buffer between an interrupt and the main loop, a supervisor,
-- a bus driver. This library models these cores and proves what they promise. The
-- components of different labs do not call each other; what they share is the kind of
-- service below them (a memory, a bus, a driver), and such a service is an interface
-- here: the code above it takes the service as a parameter.
--
-- Files and the code they model:
-- - Base and its children carry what all components share: 32-bit words and bytes
--   (Base.Word), finite tests of bits (Base.Bits), lists over the native numbers
--   (Base.Lists), the return codes of the labs (Base.Codes) and Exec (Base.Exec), the
--   monad of C functions that change a state and return early with a code.
-- - Zephyr.Eeprom is the interface of the EEPROM driver that the code of lab 24 calls,
--   and Zephyr.Memory a concrete driver whose power fails after a given number of
--   calls. The laws of the interface are hypotheses of the theorems.
-- - FaultLog models labs/lab24_eeprom_fault_logger_zephyr/src/fault_log.c: load_le32,
--   store_le32, crc32, record_valid, newer, fault_log_init, fault_log_append and
--   fault_log_latest keep their names, the last three without the prefix. The three
--   phases of fault_log_append are invalidate, program and publish. The children hold
--   the laws: Codec of the little-endian words, View and Contents of the slots in the
--   memory, Steps of one append, Recovery of the restart after a power loss.
-- - RingBuffer models labs/lab11_uart_ringbuffer/ringbuffer.c (rb_push is push), Fifo
--   its refinement of a bounded queue, and Echo the steps that UART0_Handler and the
--   loop of main.c take, in any order.
-- - Watchdog models labs/lab25_watchdog_heartbeat_zephyr/src/watchdog_supervisor.c;
--   History states what a sequence of reports and service calls does.
-- - Zephyr.Flash is the interface of the flash driver, with a NOR flash that meets it,
--   and Zephyr.Cells has the laws of contents that agree outside of a range.
-- - BootLog models labs/lab23_flash_boot_event_logger_zephyr/src/boot_log.c:
--   boot_log_init, boot_log_append and boot_log_read_last without the prefix. Region says
--   what the cells hold, Startup is the loop of the start, Append the branches of an
--   append, Restart what a start finds after an append, ReadBack what is read.
-- - PcieResource models the resource window of
--   labs/lab19_pcie_bar_resource_zephyr/pcie_resource.c (window_init, alloc, translate);
--   Placement is one allocation, Requests a series of them. Base.Bits.Mask has the laws of
--   the masks that align_up uses.
-- - Zephyr.I2c is the interface of the I2C driver: targets that hold registers of one byte.
-- - RegAccess models labs/lab21_i2c_register_update_zephyr/src/reg_access.c; Update states,
--   bit by bit (Base.Bits.Digits), what an update does to the registers of all targets.
-- - UartAsync models
--   labs/lab20_uart_async_rx_manager_zephyr/drivers/uart/uart_cmsdk_async.c with the callback
--   as a parameter: the calls of its interface, and in Isr lab20_uart_isr and what it calls.
-- - RxManager models labs/lab20_uart_async_rx_manager_zephyr/src/rx_manager.c, the client of
--   that driver, over the ring buffer of Zephyr (Zephyr.RingBuf). rx_manager_event calls
--   uart_rx_buf_rsp from inside of the handler, as the code does. Events and Finish compute
--   what the events do, Machine is the specification of both parts together, Refine the
--   refinement, Account and Delivery the books of the bytes, System the inputs in any order,
--   Service and Alive what the reader is promised.
-- - PcieHost models labs/lab18_pcie_enumeration/pcie_host.c, the guards before the operations
--   of a host, which are a parameter; Guards says which accesses reach it.
-- - PcieBus models labs/lab18_pcie_enumeration/pcie_bus.c over such a host. Fields has the
--   masks and shifts as arithmetic, Read the reading of one function, Scan the functions that
--   answer and their entry, Enumerate the scan, Contents and Found what stands in the bus,
--   Exact both together.
-- - PcieSim models labs/lab18_pcie_enumeration/pcie_sim_host.c as a host of PcieHost; Memory
--   has what the enumeration asks of it.
-- - Zephyr.Spi is the interface of the SPI driver and its flags. SpiCommand models
--   labs/lab22_spi_command_read_zephyr/src/spi_command.c; Ready says which configurations
--   pass, Reply what a read gives.
-- - I2cLine models labs/lab14_mps2_mmio_i2c/mps2_i2c.c up to the bytes: lines, START, STOP,
--   bits and bytes over the registers of the two lines, which are a parameter. Mps2I2c models
--   the rest of it: mps2_i2c_transfer, mps2_i2c_probe, mps2_i2c_recover_bus and
--   mps2_i2c_init. I2cTarget is what is wired to the lines: they are open-drain, a target may
--   hold SCL, and its shift register (Slave) turns edges into the bytes of a device. Talk is
--   the conversation that a transfer is to such a device, Rest what it means on the lines,
--   Refine and Conversation show that the code holds it. Guards has the checks of a transfer.
-- - Eeprom models labs/lab14_mps2_mmio_i2c/eeprom.c over that master. Chip is what the
--   documents of such chips say, Pages a write within a page, Buffer the transmit buffer, Got
--   and Sent what the chip has received, Fetched what it gives, Wait the polling for the end
--   of a write, Cycle what the documents say of the write cycle, Range and Guards the checks,
--   Writes the whole write, Reads the whole read and RoundTrip
--   both together.
--
-- Bounds and fuel: every loop of the source runs a constant or a given number of
-- times and is structural recursion on that number, so no model runs on fuel that
-- could end too early. Machine integers keep their wrap-around (% 2 ^ 32, % 256).
--
-- Not modelled: the set-up of registers and start-up code (writes of constants to
-- memory-mapped registers), the demonstration programs that print what the components
-- answer, linker scripts and build files, and the labs listed as planned in the
-- manifest.

pub mod Base
pub mod Zephyr
pub mod FaultLog
pub mod RingBuffer
pub mod Watchdog
pub mod BootLog
pub mod PcieResource
pub mod PcieHost
pub mod PcieBus
pub mod PcieSim
pub mod UartAsync
pub mod RxManager
pub mod RegAccess
pub mod SpiCommand
pub mod I2cLine
pub mod I2cTarget
pub mod Mps2I2c
pub mod Eeprom
