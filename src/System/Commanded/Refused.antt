-- ===== src/System/Commanded/Refused.antt =====
-- A request for a state that a client refuses.
use packml_ros.System.{System}
