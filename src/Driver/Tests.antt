-- ===== src/Driver/Tests.antt =====
-- Runs of the driver's theorems on concrete instances, over a HAL that is a list of frames and the
-- three flags of the life cycle.
pub mod Toy
pub mod Rings
pub mod Messages
pub mod Life
