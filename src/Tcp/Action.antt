-- ===== src/Tcp/Action.antt =====
-- The client's methods as actions (transport/tcp/client.go): a result and the client after it, also
-- where the result is an error.
use shadowlark_go.Base.{some, Result, ok, err, panic}
use shadowlark_go.Frame.{Frame}
use shadowlark_go.Session.{State}
use shadowlark_go.Tcp.{Client, Network, write_frame, read_frame}

abbrev pub Action : Type 0 → Type 0
Action A = Client → Result A × Client

abbrev pub next : {A B : Type 0} → (A → Action B) → Result A × Client → Result B × Client
next f (ok a, c) = f a c
next f (err e, c) = (err e, c)
next f (panic, c) = (panic, c)

-- `if err != nil { return err }` and the statements after it
infixl 5 ◌>>=◌
abbrev pub ◌>>=◌ : {A B : Type 0} → Action A → (A → Action B) → Action B
(m >>= f) c = next f (m c)

-- A call that does not touch the client
abbrev pub attempt : {A : Type 0} → Result A → Action A
attempt r c = (r, c)

unfoldable pub write : Network → Frame → Action (Unit {0})
write net f c = write_frame net f c

unfoldable pub receive : Action Frame
receive c =
    let (f, rest) = read_frame c.conn.incoming in
    (f, record c { conn = record c.conn { incoming = rest } })

-- `c.Session = &sess`
unfoldable pub establish : State → Action (Unit {0})
establish s c = (ok tt, record c { session = some s })
