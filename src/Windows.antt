-- ===== src/Windows.antt =====
-- The Windows platform layer, main_windows.c and src/cmdline.c.
pub mod Unicode
pub mod Cmdline
pub mod Console
pub mod Startup
pub mod Session
pub mod Files
