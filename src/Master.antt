-- ===== src/Master.antt =====
-- prj2/src/sample/master_device/master_device.c (the functions that change its state) and
-- prj2/src/sample/user_program/master.c.
pub mod Device
pub mod Program
pub mod Sends
pub mod Whole
pub mod Limit
pub mod Pages
pub mod Trial
