-- ===== src/Router/Dispatch.antt =====
-- What the router with the default handlers does with a frame.
use shadowlark_go.Base.{
  ℕ, ◌≡◌, ◌≢◌, refl, arith, List, [], ◌∷◌, ◌++◌, get_elem?, set, ◌==◌, Bool-cases, inl, inr, ◌⊎◌,
}
use shadowlark_go.Base.{Option, none, some, Result, ok, err, panic, Error, ap, ◌∙◌}
use shadowlark_go.Frame.{Frame, msg_heartbeat}
use shadowlark_go.App.{Message, msg_app_message, to_frame, from_frame}
use shadowlark_go.App.Codec.{IsWire}
use shadowlark_go.App.Inbox.{Inbox, Heap, push}
use shadowlark_go.App.Inbox.Delivery.{push-some}
use shadowlark_go.App.RoundTrip.{from_frame-to_frame, to_frame-msg_type}
use shadowlark_go.Router.{
  World, FrameHandler, FrameRouter, dispatch, with_app_defaults, with_defaults, register_handler,
  new,
}
use shadowlark_go.Router.{
  app_message_handler, heartbeat_handler, after_from_frame, after_push, touch_session,
}

module _ (now : ℕ) (f : Frame) (w : World) where
  dispatch_with :
      (r : FrameRouter) (found : Option FrameHandler)
      → r f.msg_type ≡ found
      → dispatch now r f w ≡ elim found [
        | none ↦ (err (Error.no_handler f.msg_type), w)
        | some handler ↦ handler now f w
      ]
  unfolding dispatch
  dispatch_with r found e =
      ap
        (λ (o : Option FrameHandler). elim o as (λ x. Result (Unit {0}) × World) [
          | none ↦ (err (Error.no_handler f.msg_type), w)
          | some handler ↦ handler now f w
        ])
        e

  module _ (inbox : Inbox) where
    dispatch_app :
        f.msg_type ≡ msg_app_message
        → dispatch now (with_app_defaults inbox) f w ≡ after_from_frame inbox now w (from_frame f)
    unfolding with_app_defaults register_handler app_message_handler
    dispatch_app e =
        dispatch_with (with_app_defaults inbox) (some (app_message_handler inbox))
          (ap (with_app_defaults inbox) e)

    dispatch_heartbeat :
        f.msg_type ≡ msg_heartbeat
        → dispatch now (with_app_defaults inbox) f w ≡ (ok tt, touch_session now w)
    unfolding with_app_defaults with_defaults register_handler heartbeat_handler
    dispatch_heartbeat e =
        dispatch_with (with_app_defaults inbox) (some heartbeat_handler)
          (ap (with_app_defaults inbox) e)

    dispatch_other :
        f.msg_type ≢ msg_app_message
        → f.msg_type ≢ msg_heartbeat
        → dispatch now (with_app_defaults inbox) f w ≡ (err (Error.no_handler f.msg_type), w)
    unfolding with_app_defaults with_defaults register_handler new
    dispatch_other app beat = dispatch_with (with_app_defaults inbox) none (ground arith)

-- A message whose fields are in the range of their types, with a payload of at most 8 MiB, whose frame
-- is dispatched by the router with the default handlers, is put behind the others in the inbox, and
-- the session's time of the last activity is renewed.
pub dispatch_delivers :
    (now : ℕ) (inbox : Inbox) (w : World) (q : List Message) (m : Message)
    → get_elem? w.inboxes inbox ≡ some q
    → IsWire m
    → dispatch now (with_app_defaults inbox) (to_frame m) w
      ≡ (ok tt, touch_session now (record w { inboxes = set w.inboxes inbox (q ++ (m ∷ [])) }))
unfolding after_from_frame after_push
dispatch_delivers now inbox w q m e h =
    dispatch_app now (to_frame m) w inbox (to_frame-msg_type m)
    ∙ ap (after_from_frame inbox now w) (from_frame-to_frame m h)
    ∙ ap (after_push now w) (push-some inbox m w.inboxes q e)

after_push-unchanged :
    (now : ℕ) (w : World) (c : Result Heap)
    → ((after_push now w c).0 ≡ ok tt) ⊎ ((after_push now w c).1 ≡ w)
unfolding after_push
after_push-unchanged now w (ok h) = inl refl
after_push-unchanged now w (err e) = inr refl
after_push-unchanged now w panic = inr refl

after_from_frame-unchanged :
    (inbox : Inbox) (now : ℕ) (w : World) (c : Result Message)
    → ((after_from_frame inbox now w c).0 ≡ ok tt) ⊎ ((after_from_frame inbox now w c).1 ≡ w)
unfolding after_from_frame
after_from_frame-unchanged inbox now w (ok m) = after_push-unchanged now w (push inbox m w.inboxes)
after_from_frame-unchanged inbox now w (err e) = inr refl
after_from_frame-unchanged inbox now w panic = inr refl

-- With the default handlers, whatever frame is dispatched, a dispatch that does not succeed changes
-- neither an inbox nor the session.
pub dispatch_failed :
    (now : ℕ) (inbox : Inbox) (f : Frame) (w : World)
    → ((dispatch now (with_app_defaults inbox) f w).0 ≡ ok tt)
      ⊎ ((dispatch now (with_app_defaults inbox) f w).1 ≡ w)
dispatch_failed now inbox f w = elim (Bool-cases (f.msg_type == msg_app_message)) [
  | inl app ↦
      let is_app : f.msg_type ≡ msg_app_message = ground arith in
      rw (dispatch_app now f w inbox is_app) (after_from_frame-unchanged inbox now w (from_frame f))
  | inr other ↦ elim (Bool-cases (f.msg_type == msg_heartbeat)) [
    | inl beat ↦ rw (dispatch_heartbeat now f w inbox (ground arith)) (inl refl)
    | inr neither ↦ rw (dispatch_other now f w inbox (ground arith) (ground arith)) (inr refl)
  ]
]
