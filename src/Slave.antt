-- ===== src/Slave.antt =====
-- prj2/src/sample/slave_device/slave_device.c (the functions that change its state) and
-- prj2/src/sample/user_program/slave.c.
pub mod Device
pub mod Program
pub mod Stream
pub mod Rounds
pub mod Saves
pub mod Whole
pub mod Limit
pub mod Failing
pub mod Pages
