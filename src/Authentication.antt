-- ===== src/Authentication.antt =====
-- backend/app/authentication/: the codes that confirm a sensitive action, and the linking of Telegram.
pub mod Verification
pub mod Linking
