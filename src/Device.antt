-- ===== src/Device.antt =====
-- The callbacks of pn_logger/logger_common.c, which P-Net calls when the controller connects and
-- while it exchanges data.
pub mod Plugging
pub mod Records
pub mod Process
pub mod Startup
mod Tests
