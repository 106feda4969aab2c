-- ===== src/Store/Monitors/Delete.antt =====
-- The deletion of a monitor.
use ping.Db.Edits
