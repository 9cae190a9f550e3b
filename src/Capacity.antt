-- ===== src/Capacity.antt =====
-- internal/capacity: the definitions of the capacity sensors, and the sensor that polls.
pub mod Defs
pub mod Sensor
