-- ===== src/Server/Program/Draining/Turns.antt =====
-- The program's events, and then as many turns as there are connections.
use verteilte_systeme_bbps.Prelude.{List}
use verteilte_systeme_bbps.Protocol.Json.{Json}
use verteilte_systeme_bbps.Server.Invariant.{Invariant}
