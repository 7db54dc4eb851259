-- ===== src/Device.antt =====
-- driver/device.c, driver/driver.c and the power callbacks of driver/arc.c: arrival, power and
-- departure of the hardware, and the opening of a handle.
pub mod Bars
pub mod Resources
pub mod Prepare
pub mod Release
pub mod HandBack
pub mod Stopping
pub mod Stopped
pub mod Power
