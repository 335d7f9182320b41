-- ===== src/Client/Program/Subscribing.antt =====
-- A client that is started to subscribe.
use verteilte_systeme_bbps.Protocol.Json.{Json}
