-- ===== src/Power.antt =====
-- The sensors that decide whether the device is idle: power/, android/power_state.cpp,
-- android/activity_state.cpp and memory/psi_monitor.cpp.
pub mod Screen
pub mod Battery
pub mod Thermal
pub mod Pressure
pub mod Activity
pub mod Idle
