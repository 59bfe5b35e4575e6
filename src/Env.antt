-- ===== src/Env.antt =====
-- The boot environment, src/core/env.c: `env_hex`, `env_dec`, `env_bool`, `env_display`,
-- `env_debug`, `env_init`, and what the platforms of x86_64 add, `platform_env`, `platform_parse`
-- and `env_cs` of src/core/x86_64/ibmpc/platform.c and src/core/x86_64/acpi/platform.c. A text is a
-- list of bytes, behind which reads give 0; the page `environment` is one of at most 4096 bytes.
-- Locals that are read before they are written hold `junk`. `DEBUG` is set.
pub mod Date
pub mod Calendar
pub mod Encoded
pub mod Signed
pub mod Parse
pub mod Init
pub mod Bounds
pub mod Values
pub mod Keys
pub mod Digits
mod Tests
