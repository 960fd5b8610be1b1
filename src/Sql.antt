-- ===== src/Sql.antt =====
-- sql/: the lexer, and what becomes of parsed objects as text. A text is the list of its code units.
pub mod Chars
pub mod Scan
pub mod Number
pub mod Lexer
pub mod Object
pub mod Attempt
pub mod Words
pub mod Tree
pub mod Parser
