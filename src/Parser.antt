-- ===== src/Parser.antt =====
-- parser/: the statements of a source text.
pub mod State
mod Columns
pub mod Statements
mod Run
mod Fine
mod Next
mod Steps
mod Ranges
mod Typed
mod Items
mod Checked
mod Progress
mod Loop
mod Parsed
mod Examples
