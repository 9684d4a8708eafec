-- ===== src/FileLogger.antt =====
-- src/ports/linux/app_filelogger.c: the log entries, the ring between the threads, and the files.
pub mod Entry
pub mod Buffer
pub mod File
pub mod Thread
pub mod Reader
pub mod Rotation
pub mod Archive
pub mod Names
pub mod Tests
