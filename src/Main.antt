-- ===== src/Main.antt =====
-- src/main.cpp: the command line, and the client behind --health-check. How main() puts the
-- configuration together is in Config/Startup.
pub mod Args
pub mod Health
