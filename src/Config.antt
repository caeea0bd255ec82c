-- ===== src/Config.antt =====
-- nestjs-app/src/config: the variables of the environment and how they are checked
-- (env.validation.ts), and the configuration that is made of them (configuration.ts). Number and
-- Json are `Number(s)` and `JSON.parse(s)` of the language.
pub mod Number
pub mod Json
pub mod Environment
pub mod Secrets
pub mod Settings
pub mod Checked
pub mod Flags
pub mod DataSource
pub mod Tests
