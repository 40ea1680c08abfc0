-- ===== src/Shell.antt =====
-- communication/shell.c: a command interpreter with words, quotes, redirections, pipelines and
-- background commands. Lexer reads tokens, Command reads a command and runs it,
-- and Pipeline says what a pipeline comes to.
pub mod Builtin
pub mod Command
pub mod Invoke
pub mod Lexer
pub mod Listing
pub mod Loop
pub mod Table
pub mod Pipeline
mod Tests
pub mod World
