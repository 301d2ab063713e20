-- ===== src/Gateway/Hub/Reuse.antt =====
-- A Hub session serves whoever names it.
use mcphub.Prelude.{Map}
use mcphub.Discovery.Types.{Identity}
use mcphub.Gateway.Hub.{Hub, Answer}

-- What a request answers, and the sessions that it leaves.
abbrev pub seen : {S : Type 0} → Answer × Hub S → Answer × Map Identity
seen (a, h) = (a, h.sessions)
