-- ===== src/P7/Runtime/Mail.antt =====
-- p7/p7impl.c: messages: p7_send_by_entity, p7_send_by_name, mailbox_dispatch, p7_mailbox_extract.
-- A write to a pipe that fails is tried again, so that what follows is the write that succeeds.
pub mod Laws
use servcraft.Prelude.{
  ℕ, zero, suc, ◌+◌, ◌-◌, ◌%◌, ◌^◌, Bool, true, false, Option, none, some, List, [], ◌∷◌, ◌++◌,
  ◌==◌, if◌then◌else◌, is_some, update,
}
use servcraft.P7.DoubleQueue.{post, turn, pending, drained}
use servcraft.P7.Runtime.{
  Coro, Msg, Carrier, Shared, InternMsg, sent, UserCall, destroy, store, own,
}
use servcraft.P7.Runtime.Waking.{share}

-- What a sender gets: 0, -2 for a dying target, -1 for a name that no coroutine has, or what
-- happens to be in the register.
pub data SendStatus : Type 0 where
  taken : SendStatus
  target_dying : SendStatus
  no_such_name : SendStatus
  unspecified : SendStatus

-- The write of a message about the running coroutine and its target to the pipe of a carrier.
unfoldable pub notify : ℕ → InternMsg → Carrier → Carrier
notify i m c = let s = c.carriers i in share i (record s { condpipe = s.condpipe ++ m ∷ [] }) c

-- The message itself: to the local box, or to the box of the sender at the carrier of the target.
unfoldable pub put_message : Msg → ℕ → Carrier → Carrier
put_message msg dst_carrier c =
    let s = c.carriers dst_carrier in
    if dst_carrier == c.carrier_id
    then record c { localbox = c.localbox ++ msg ∷ [] }
    else share dst_carrier
        (record s {
          mailboxes = update s.mailboxes c.carrier_id (post (s.mailboxes c.carrier_id) msg);
        })
        c

-- p7_send_by_entity.
unfoldable pub send_by_entity : ℕ → Msg → Carrier → Carrier × SendStatus
send_by_entity target msg c =
    let co = c.coros target in
    if co.status.alive
    then (
      notify co.carrier_id (sent target c.running)
          (put_message (record msg { dst = target }) co.carrier_id c),
      taken,
    )
    else (c, target_dying)

-- The count of the senders that have the coroutine at hand: decay, a 64-bit number.
unfoldable pub add_decay : ℕ → ℕ → Carrier → Carrier
add_decay n x c = let co = c.coros x in store x (record co { decay = (co.decay + n) % 2 ^ 64 }) c

-- p7_send_by_name, by what p7_namespace_find returned. The status of the inner call is dropped.
unfoldable pub send_by_name : Option ℕ → Msg → Carrier → Carrier × SendStatus
send_by_name none msg c = (c, no_such_name)
send_by_name (some x) msg c =
    let r = send_by_entity x msg (add_decay 1 x c) in (add_decay (2 ^ 64 - 1) x r.0, unspecified)

-- The body of the loop of mailbox_dispatch.
unfoldable pub deliver : Msg → Carrier → Carrier
deliver msg c =
    let co = c.coros msg.dst in
    if co.status.alive
    then store msg.dst (record co { mailbox = co.mailbox ++ msg ∷ [] }) c
    else if is_some msg.dtor
    then record c { calls = c.calls ++ destroy msg ∷ [] }
    else c

-- mailbox_dispatch, over the messages of a box.
unfoldable pub mailbox_dispatch : List Msg → Carrier → Carrier
mailbox_dispatch [] c = c
mailbox_dispatch (m ∷ ms) c = mailbox_dispatch ms (deliver m c)

-- The mailbox of one sender: it is turned, and the list that no sender writes to is emptied.
unfoldable pub dispatch_box : ℕ → Carrier → Carrier
dispatch_box idx c =
    let s = own c in
    let q = turn (s.mailboxes idx) in
    mailbox_dispatch (pending q)
      (share c.carrier_id (record s { mailboxes = update s.mailboxes idx (drained q) }) c)

-- The mailboxes of the first n carriers, in order.
unfoldable pub dispatch_boxes : ℕ → Carrier → Carrier
dispatch_boxes zero c = c
dispatch_boxes (suc n) c = dispatch_box n (dispatch_boxes n c)

unfoldable pub dispatch_all : Carrier → Carrier
dispatch_all c =
    let d = dispatch_boxes (own c).nmailboxes c in
    mailbox_dispatch d.localbox (record d { localbox = [] })

-- The first message of a mailbox, taken off it.
unfoldable pub take_first : ℕ → List Msg → Carrier → Carrier × Option Msg
take_first x [] c = (c, none)
take_first x (m ∷ ms) c = (store x (record (c.coros x) { mailbox = ms }) c, some m)

-- p7_mailbox_extract, for the running coroutine x; also how p7_recv ends.
unfoldable pub mailbox_extract : ℕ → Carrier → Carrier × Option Msg
mailbox_extract x c = take_first x (c.coros x).mailbox c
