-- ===== src/Git.antt =====
-- git: the parts that do not depend on a server's software.
pub mod Helpers
pub mod Urls
pub mod Manager
