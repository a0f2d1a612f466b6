-- ===== src/Spel.antt =====
-- crates/spel: the expression language of the configuration.
pub mod Ast
pub mod Template
pub mod Lexer
pub mod Parser
pub mod Expressions
pub mod Parse
pub mod Text
pub mod Values
pub mod Conversions
pub mod Methods
pub mod Collections
pub mod Helpers
pub mod Operators
pub mod Equals
pub mod Eval
pub mod Templates
mod Examples
mod LexExamples
mod EvalExamples
