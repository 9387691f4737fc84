-- ===== src/Session/Incoming/Cleanup.antt =====
-- Nothing that an incoming stream opens is left open.
use outrelay_agent.Base.{nat_eq}
use outrelay_agent.Session.Forward.Parts.{part_eq}
use outrelay_agent.Session.Incoming.Handles.{handle_eq}
