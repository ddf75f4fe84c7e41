-- ===== src/Extraction.antt =====
-- internal/extraction: the path language, its parser, and the evaluation of a path.
pub mod Syntax
pub mod Parser
pub mod Path
pub mod Total
pub mod Grammar
pub mod RoundTrip
pub mod Written
pub mod Json
pub mod Evaluator
pub mod Selection
pub mod Native
pub mod Interruption
