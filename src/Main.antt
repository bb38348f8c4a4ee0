-- ===== src/Main.antt =====
-- src/app/main.cpp: its handlers, its loop, `main` itself, and two peers together.
pub mod Loop
pub mod Handlers
pub mod Environment
pub mod Program
pub mod Session
mod Tests
