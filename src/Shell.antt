-- ===== src/Shell.antt =====
-- HW2.3-Shell/myshell.c: reading a line, splitting it into commands and arguments, and job control.
pub mod Line
pub mod Parse
pub mod Jobs
pub mod Pipes
pub mod Pipeline
pub mod Exec
pub mod Session
mod Tests
