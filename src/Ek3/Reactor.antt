-- ===== src/Ek3/Reactor.antt =====
-- ek3/ek3_reactor.c and ek3/ek3_reactor.h: sessions and their events, which a reactor hands out
-- when epoll reports them. Sessions and events stand for their addresses, a ring for the sequence of
-- its entries. The kernel, the hash table of sessions and the tree of timers enter as the calls that
-- the code makes and as what they return.
pub mod Lifetime
pub mod Deploy
pub mod Laws
pub mod Poll
pub mod Queues
pub mod Handed
use servcraft.Prelude.{
  ℕ, zero, suc, ◌+◌, ◌-◌, ◌%◌, ◌^◌, Bool, true, false, not, Option, none, some, List, [], ◌∷◌, ◌++◌,
  ltb, is_nil, if◌then◌else◌, erase, update,
}

-- The type of an event without its flags.
pub data EventType : Type 0 where
  read : EventType
  write : EventType
  error : EventType
  timeout : EventType
  other : EventType

-- struct ek3_event.
pub record Event : Type 0 where
  pub kind : EventType
  pub rdhup : Bool
  pub posted : Bool
  pub et : Bool
  pub oneshot : Bool
  pub fd : ℕ
  pub deprecated : Bool
  pub handler : Option ℕ
  pub param_dtor : Option ℕ
  pub handler_user_param : Option ℕ
  pub timeout_stamp : ℕ
  pub timeout_period : ℕ
  pub parent_session : ℕ

-- The status of a session without its flag.
pub data SessionStatus : Type 0 where
  not_activated : SessionStatus
  activated : SessionStatus
  committed : SessionStatus

-- struct ek3_session.
pub record Session : Type 0 where
  pub fd : ℕ
  pub status : SessionStatus
  pub is_posted : Bool
  pub events_notified : List ℕ
  pub events_registered : List ℕ
  pub events_deployed : List ℕ

-- A call of the kernel, of the trees and tables, or of a function that the program handed over.
pub data Call : Type 0 where
  epoll_add : (fd event : ℕ) → Call
  timer_insert : (event : ℕ) → Call
  timer_detach : (event : ℕ) → Call
  close : (fd : ℕ) → Call
  destroy_param : (dtor param : ℕ) → Call
  free_event : (event : ℕ) → Call
  free_session : (session : ℕ) → Call
  free_reactor : Call
  hash_insert : (session : ℕ) → Call
  hash_remove : (session : ℕ) → Call
  hash_destroy : Call

-- struct ek3_reactor, with the memory of its sessions and events, and the calls made so far.
pub record Reactor : Type 0 where
  pub epoll_fd : ℕ
  pub queue_notified : List ℕ
  pub queue_committing : List ℕ
  pub queue_posted : List ℕ
  pub queue_deployed : List ℕ
  pub sessions : ℕ → Session
  pub events : ℕ → Event
  pub calls : List Call

abbrev pub store_session : ℕ → Session → Reactor → Reactor
store_session x s r = record r { sessions = update r.sessions x s }

abbrev pub store_event : ℕ → Event → Reactor → Reactor
store_event x e r = record r { events = update r.events x e }

abbrev pub call : Call → Reactor → Reactor
call k r = record r { calls = r.calls ++ k ∷ [] }
