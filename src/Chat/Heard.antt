-- ===== src/Chat/Heard.antt =====
-- A line from the keyboard of one client to the screen of another.
