-- ===== src/Controller.antt =====
-- trainfer/controller.py: the glue between the HTTP server and the engine.
pub mod Responses
pub mod Shutdown
pub mod Feedback
pub mod Train
pub mod Handler
pub mod Model
pub mod Generate
