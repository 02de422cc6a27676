-- ===== src/Telegram.antt =====
-- backend/app/telegram/: how an update is admitted.
pub mod Limits
