-- ===== src/P7/Runtime/Mail/Laws.antt =====
-- p7/p7impl.c: messages reach the mailbox of their target in the order in which they were sent.
use servcraft.Prelude.{
  ℕ, ◌≡◌, refl, sym, true, some, List, [], ◌∷◌, ◌++◌, append-nil, append_assoc, arith, ◌==◌, ==_iff,
  ==_self, if◌then◌else◌, is_some,
}
use servcraft.P7.Runtime.{Coro, Msg, Carrier, UserCall, destroy}
use servcraft.P7.Runtime.Mail.{
  taken, send_by_entity, put_message, notify, deliver, mailbox_dispatch, mailbox_extract,
  take_first,
}

-- The messages for a coroutine.
abbrev pub addressed : ℕ → List Msg → List Msg
addressed x [] = []
addressed x (m ∷ ms) = if m.dst == x then m ∷ addressed x ms else addressed x ms

-- The destructors of the messages whose targets do not live.
abbrev pub returned : (ℕ → Coro) → List Msg → List UserCall
returned coros [] = []
returned coros (m ∷ ms) =
    if (coros m.dst).status.alive
    then returned coros ms
    else if is_some m.dtor
    then destroy m ∷ returned coros ms
    else returned coros ms

-- A coroutine after the dispatch.
abbrev pub with_mail : Coro → List Msg → Coro
with_mail co ms = if co.status.alive then record co { mailbox = co.mailbox ++ ms } else co

mailbox_dispatch-alive :
    (ms : List Msg) (c : Carrier) (x : ℕ)
    → ((mailbox_dispatch ms c).coros x).status.alive ≡ (c.coros x).status.alive
unfolding mailbox_dispatch deliver
mailbox_dispatch-alive [] c x = refl
mailbox_dispatch-alive (m ∷ ms) c x =
    ground (arith, mailbox_dispatch-alive ms (deliver m c) x, ==_iff m.dst x)

deliver-mailbox :
    (m : Msg) (c : Carrier) (x : ℕ)
    → ((deliver m c).coros x).mailbox ≡ (
        if (c.coros x).status.alive
        then (c.coros x).mailbox ++ addressed x (m ∷ [])
        else (c.coros x).mailbox)
unfolding deliver
deliver-mailbox m c x = ground (arith, ==_iff m.dst x, append-nil (c.coros x).mailbox)

calls-deliver : (m : Msg) (c : Carrier) → (deliver m c).calls ≡ c.calls ++ returned c.coros (m ∷ [])
unfolding deliver
calls-deliver m c = ground (arith, append-nil c.calls)

returned-same :
    (ms : List Msg) (f g : ℕ → Coro)
    → ((x : ℕ) → (g x).status.alive ≡ (f x).status.alive)
    → returned g ms ≡ returned f ms
returned-same [] f g h = refl
returned-same (m ∷ ms) f g h = rw (h m.dst, returned-same ms f g h) refl

alive-deliver :
    (m : Msg) (c : Carrier) (x : ℕ)
    → ((deliver m c).coros x).status.alive ≡ (c.coros x).status.alive
unfolding deliver
alive-deliver m c x = ground (arith, ==_iff m.dst x)

mailbox-dispatch :
    (ms : List Msg) (c : Carrier) (x : ℕ)
    → ((mailbox_dispatch ms c).coros x).mailbox ≡ (
        if (c.coros x).status.alive
        then (c.coros x).mailbox ++ addressed x ms
        else (c.coros x).mailbox)
unfolding mailbox_dispatch
mailbox-dispatch [] c x = ground (arith, append-nil (c.coros x).mailbox)
mailbox-dispatch (m ∷ ms) c x = ground (
  arith,
  mailbox-dispatch ms (deliver m c) x,
  deliver-mailbox m c x,
  alive-deliver m c x,
  append_assoc (c.coros x).mailbox (m ∷ []) (addressed x ms),
  append-nil (c.coros x).mailbox,
)

calls-dispatch :
    (ms : List Msg) (c : Carrier) → (mailbox_dispatch ms c).calls ≡ c.calls ++ returned c.coros ms
unfolding mailbox_dispatch
calls-dispatch [] c = sym (append-nil c.calls)
calls-dispatch (m ∷ ms) c =
    rw
      (
        calls-dispatch ms (deliver m c),
        calls-deliver m c,
        returned-same ms c.coros (deliver m c).coros (alive-deliver m c),
      )
      (ground
        (arith, append-nil c.calls, append_assoc c.calls (destroy m ∷ []) (returned c.coros ms)))

-- The dispatch of a box appends to the mailbox of each living coroutine the messages for it, in
-- their order, and to that of no other; the destructors that are called, in order, are those of the
-- messages whose targets do not live and that have one.
pub mailbox_dispatch-Delivered :
    (ms : List Msg) (c : Carrier)
    → ((x : ℕ)
        → ((mailbox_dispatch ms c).coros x).mailbox ≡ (
            if (c.coros x).status.alive
            then (c.coros x).mailbox ++ addressed x ms
            else (c.coros x).mailbox))
      × ((mailbox_dispatch ms c).calls ≡ c.calls ++ returned c.coros ms)
mailbox_dispatch-Delivered ms c = (mailbox-dispatch ms c, calls-dispatch ms c)

-- p7_mailbox_extract on a mailbox that is not empty.
take_first-some :
    (x : ℕ) (ms : List Msg) (m : Msg) (c : Carrier)
    → ms ≡ m ∷ []
    → ((take_first x ms c).1 ≡ some m) × (((take_first x ms c).0.coros x).mailbox ≡ [])
unfolding take_first
take_first-some x [] m c e = cc
take_first-some x (k ∷ ks) m c e = ground (arith, e)

addressed-append :
    (x : ℕ) (ms ks : List Msg) → addressed x (ms ++ ks) ≡ addressed x ms ++ addressed x ks
addressed-append x [] ks = refl
addressed-append x (m ∷ ms) ks = ground (arith, addressed-append x ms ks)

-- What a message to a coroutine of the own carrier changes.
send_home :
    (x : ℕ) (msg : Msg) (c : Carrier)
    → (c.coros x).status.alive ≡ true
    → (c.coros x).carrier_id ≡ c.carrier_id
    → ((send_by_entity x msg c).1 ≡ taken)
      × ((send_by_entity x msg c).0.localbox ≡ c.localbox ++ record msg { dst = x } ∷ [])
      × ((send_by_entity x msg c).0.coros ≡ c.coros)
unfolding send_by_entity notify put_message
send_home x msg c alive home =
    let here : ((c.coros x).carrier_id == c.carrier_id) ≡ true = rw home (==_self c.carrier_id) in
    rw (alive, here) (refl, refl, refl)

receive_one :
    (x : ℕ) (m : Msg) (c : Carrier)
    → (c.coros x).mailbox ≡ m ∷ []
    → ((mailbox_extract x c).1 ≡ some m) × (((mailbox_extract x c).0.coros x).mailbox ≡ [])
unfolding mailbox_extract
receive_one x m c e = take_first-some x (c.coros x).mailbox m c e

-- A message that is sent to a living coroutine of the own carrier, with nothing else under way to
-- it, is what the coroutine receives after the dispatch of the local box, once.
pub send-receive :
    (x : ℕ) (msg : Msg) (c : Carrier)
    → (c.coros x).status.alive ≡ true
    → (c.coros x).carrier_id ≡ c.carrier_id
    → (c.coros x).mailbox ≡ []
    → addressed x c.localbox ≡ []
    → let sent = send_by_entity x msg c in
      let got = mailbox_extract x (mailbox_dispatch sent.0.localbox sent.0) in
      (sent.1 ≡ taken) × (got.1 ≡ some (record msg { dst = x })) × ((got.0.coros x).mailbox ≡ [])
send-receive x msg c alive home empty none_other =
    let sent = send_by_entity x msg c in
    let put = send_home x msg c alive home in
    let only = record msg { dst = x } in
    let held : ((mailbox_dispatch sent.0.localbox sent.0).coros x).mailbox ≡ only ∷ [] =
      rw
        (
          mailbox-dispatch sent.0.localbox sent.0 x,
          put.1,
          put.2,
          alive,
          empty,
          addressed-append x c.localbox (only ∷ []),
          none_other,
          ==_self x,
        )
        refl in
    let got = receive_one x only (mailbox_dispatch sent.0.localbox sent.0) held in
    (put.0, got.0, got.1)
