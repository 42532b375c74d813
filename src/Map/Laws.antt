-- ===== src/Map/Laws.antt =====
-- The setup of a map.
use tcpeen.Memory.{Memory}
