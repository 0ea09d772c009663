-- ===== src/Tests.antt =====
-- The theorems of the library at concrete inputs of the program.
mod PermitExamples
mod HistoryExamples
mod MatchExamples
mod CommandExamples
mod ModeExamples
mod ConversationExamples
mod OutputExamples
mod StateExamples
mod FileExamples
mod RuntimeExamples
mod ServiceExamples
