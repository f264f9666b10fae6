-- ===== src/Debug/Door/Filled.antt =====
-- `bulk` of a session that has opened.
use workd.Prelude.Outcome.{Outcome}
use workd.Debug.Session.{Session}
use workd.Debug.Door.{Door}
use workd.Debug.Door.Met.{Met}
