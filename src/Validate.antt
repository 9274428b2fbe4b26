-- ===== src/Validate.antt =====
-- internal/validate: what the validation tool may do, what it may skip, and its check over a reboot.
pub mod Skip
pub mod Reboot
