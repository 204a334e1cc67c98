-- ===== src/Config.antt =====
-- The cluster file talosbox.yaml, of internal/config/config.go and marshal.go, from what the YAML
-- library decodes.
pub mod Size
pub mod File
mod Tests
