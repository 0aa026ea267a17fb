-- ===== src/Router.antt =====
-- Package router (transport/router/router.go): the handlers by message type. A handler is a function
-- from the reading of the clock, the frame and what it may change: the queues that an inbox points to
-- and the session, which is absent where `*sess` is nil. A missing key of the map is `none`.
pub mod Dispatch
use shadowlark_go.Base.{ℕ, ◌==◌, if◌then◌else◌, Option, none, some, Result, ok, err, panic, Error}
use shadowlark_go.Frame.{Frame, msg_heartbeat}
use shadowlark_go.Session.{State, touch}
use shadowlark_go.App.{msg_app_message, Message, from_frame}
use shadowlark_go.App.Inbox.{Inbox, Heap, push}

pub record World : Type 0 where
  pub inboxes : Heap
  pub session : Option State

abbrev pub FrameHandler : Type 0
FrameHandler = ℕ → Frame → World → Result (Unit {0}) × World

abbrev pub FrameRouter : Type 0
FrameRouter = ℕ → Option FrameHandler

unfoldable pub new : FrameRouter
new = λ _. none

unfoldable pub register_handler : ℕ → FrameHandler → FrameRouter → FrameRouter
register_handler msg_type handler r = λ t. if t == msg_type then some handler else r t

-- `if s := *sess; s != nil { s.Touch() }`
unfoldable pub touch_session : ℕ → World → World
touch_session now w = record w {
  session = elim w.session [ none ↦ none | some s ↦ some (touch now s) ];
}

unfoldable pub heartbeat_handler : FrameHandler
heartbeat_handler now f w = (ok tt, touch_session now w)

after_push : ℕ → World → Result Heap → Result (Unit {0}) × World
after_push now w (ok inboxes) = (ok tt, touch_session now (record w { inboxes = inboxes }))
after_push now w (err e) = (err e, w)
after_push now w panic = (panic, w)

after_from_frame : Inbox → ℕ → World → Result Message → Result (Unit {0}) × World
unfolding after_push
after_from_frame inbox now w (ok msg) = after_push now w (push inbox msg w.inboxes)
after_from_frame inbox now w (err e) = (err e, w)
after_from_frame inbox now w panic = (panic, w)

pub app_message_handler : Inbox → FrameHandler
unfolding after_from_frame
app_message_handler inbox now f w = after_from_frame inbox now w (from_frame f)

unfoldable pub with_defaults : FrameRouter
with_defaults = register_handler msg_heartbeat heartbeat_handler new

unfoldable pub with_app_defaults : Inbox → FrameRouter
with_app_defaults inbox = register_handler msg_app_message (app_message_handler inbox) with_defaults

unfoldable pub dispatch : ℕ → FrameRouter → Frame → World → Result (Unit {0}) × World
dispatch now r f w = elim (r f.msg_type) [
  | none ↦ (err (Error.no_handler f.msg_type), w)
  | some handler ↦ handler now f w
]
