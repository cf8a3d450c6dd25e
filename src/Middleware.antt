-- ===== src/Middleware.antt =====
-- Package middleware: what stands before an app's handlers (middleware/).
pub mod Proxies
