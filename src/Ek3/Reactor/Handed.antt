-- ===== src/Ek3/Reactor/Handed.antt =====
-- ek3/ek3_reactor.c: what ek3_poll hands out.
use servcraft.Prelude.{◌≡◌, false, Option, none, some, [], is_nil}
use servcraft.Ek3.Reactor.{Reactor}
use servcraft.Ek3.Reactor.Poll.{Polled, session, failed, no_session, looping}
use servcraft.Ek3.Reactor.Queues.{places, IsSound}

-- A reactor that a loop may not have given.
abbrev IsSoundIf : Option Reactor → Type 0
IsSoundIf none = Unit
IsSoundIf (some r) = IsSound r

-- What a poll may give.
abbrev pub Handed : Polled → Type 0
Handed (session x r) =
    IsSound r × (places x r ≡ 0) × (is_nil (r.sessions x).events_notified ≡ false)
Handed (failed r) = IsSound r
Handed (no_session before) = IsSound before × (before.queue_notified ≡ [])
Handed looping = Unit
