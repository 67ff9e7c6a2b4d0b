-- ===== src/Gemini.antt =====
-- src/llm/gemini/client.js: the model and key cascade of `geminiGenerateContent`.
pub mod World
pub mod Step
pub mod Cascade
pub mod Rules
pub mod Budgeted
pub mod Dead
pub mod Healthy
pub mod Keys
pub mod Reaches
pub mod Rotation
pub mod Retired
pub mod Exhausted
mod Tests
