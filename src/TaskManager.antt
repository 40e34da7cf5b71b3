-- ===== src/TaskManager.antt =====
-- base/taskmanager: tasks with a priority, runners with a queue of their own, a pool of threads, and the
-- manager that hands tasks to them.
pub mod Task
pub mod Runner
pub mod Pool
pub mod Manager
mod Tests
