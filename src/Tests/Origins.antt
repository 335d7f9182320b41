-- ===== src/Tests/Origins.antt =====
-- Where the datagrams of a run come from, at concrete inputs.
use verteilte_systeme_bbps.Prelude.{[], All}
use verteilte_systeme_bbps.Server.Program.{Listener}
use verteilte_systeme_bbps.Server.Program.Genuine.{Cut, HasOrigin}
use verteilte_systeme_bbps.Server.Program.Genuine.Whole.{IsAccepted, main-HasOrigin}
use verteilte_systeme_bbps.Tests.Documents.{trees}
use verteilte_systeme_bbps.Tests.Runs.{news_sent}
use verteilte_systeme_bbps.Tests.Programs.{carls_events, carls_end, main-runs}

main-HasOrigin_example :
    All (HasOrigin trees 1024 (Cut (IsAccepted Listener.listening carls_events))) news_sent.sent
main-HasOrigin_example =
    main-HasOrigin trees 1024 6 [] Listener.listening carls_events carls_end main-runs
