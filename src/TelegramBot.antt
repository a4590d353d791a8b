-- ===== src/TelegramBot.antt =====
-- backend/app/modules/telegram_bot: the starts of a chat, and the buttons that
-- decide a request for access.
pub mod Start
pub mod Callback
pub mod Decision
pub mod Buttons
