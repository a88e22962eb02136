-- ===== src/Driver.antt =====
-- The CMSIS driver.
pub mod Hal
pub mod Queue
pub mod Ring
pub mod Context
pub mod Event
pub mod Power
pub mod Bitrate
pub mod Object
pub mod Message
pub mod Status
pub mod Api
pub mod Tests
