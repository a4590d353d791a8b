-- ===== src/TelegramBot/Start/Welcome.antt =====
-- The welcome that is kept for a chat is one of its latest /start.
