-- ===== src/Examples.antt =====
-- Concrete stores, requests and environments, on which the theorems of the other modules are applied.
mod Data
mod Live
mod Runs
mod Posts
mod Messages
mod Schedules
mod Pages
mod Serving
mod Files
