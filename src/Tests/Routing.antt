-- ===== src/Tests/Routing.antt =====
-- Witnesses for package router.
use shadowlark_go.Base.{◌≡◌, ◌⊎◌, refl, ok, [], ◌∷◌, ◌++◌, set, some}
use shadowlark_go.Frame
use shadowlark_go.Frame.{msg_heartbeat}
use shadowlark_go.App.{to_frame}
use shadowlark_go.Router.{World, dispatch, with_app_defaults, touch_session}
use shadowlark_go.Router.Dispatch.{dispatch_delivers, dispatch_failed}
use shadowlark_go.Tests.Samples.{initiator}
use shadowlark_go.Tests.Application.{message, message-IsWire}

abbrev world : World
world = record { inboxes = [] ∷ []; session = some initiator }

dispatch_delivers_example : dispatch 9 (with_app_defaults 0) (to_frame message) world ≡ (
  ok tt,
  touch_session 9 (record world { inboxes = set world.inboxes 0 ([] ++ (message ∷ [])) }),
)
dispatch_delivers_example = dispatch_delivers 9 0 world [] message refl message-IsWire

dispatch_failed_example :
    ((dispatch 9 (with_app_defaults 0) (Frame.new 4 0 []) world).0 ≡ ok tt)
    ⊎ ((dispatch 9 (with_app_defaults 0) (Frame.new 4 0 []) world).1 ≡ world)
dispatch_failed_example = dispatch_failed 9 0 (Frame.new 4 0 []) world
