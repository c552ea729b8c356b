-- ===== src/Task.antt =====
-- pkg/task: tasks, sessions, names and results.
pub mod Id
pub mod Value
pub mod Result
pub mod Files
mod Tests
