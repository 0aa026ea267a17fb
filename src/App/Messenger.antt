-- ===== src/App/Messenger.antt =====
-- Messenger (app/app.go): sequence numbers per channel, and the inbox behind it. `nextSeq` is a Go
-- map whose missing keys read 0: a function.
pub mod Counting
use shadowlark_go.Base.{ℕ, ◌+◌, ◌%◌, ◌^◌, List, ◌==◌, if◌then◌else◌, Result, Option}
use shadowlark_go.Frame.{Frame}
use shadowlark_go.App.{Message, new_message, to_frame}
use shadowlark_go.App.Inbox
use shadowlark_go.App.Inbox.{Heap}

pub record Messenger : Type 0 where
  pub next_seq : ℕ → ℕ
  pub inbox : Inbox.Inbox

pub new_messenger_with_inbox : Inbox.Inbox → Messenger
new_messenger_with_inbox inbox = record { next_seq = λ _. 0; inbox = inbox }

pub new_messenger : Heap → Messenger × Heap
unfolding new_messenger_with_inbox
new_messenger h = let (inbox, h') = Inbox.new_inbox h in (new_messenger_with_inbox inbox, h')

-- `seq + 1` of a uint32 wraps.
pub alloc_seq : ℕ → Messenger → ℕ × Messenger
alloc_seq channel_id m =
    let seq = m.next_seq channel_id in
    (seq, record m { next_seq = λ c. if c == channel_id then (seq + 1) % 2 ^ 32 else m.next_seq c })

pub build_frame : ℕ → ℕ → List ℕ → Messenger → (ℕ × Frame) × Messenger
unfolding alloc_seq
build_frame channel_id msg_type payload m =
    let (seq, m') = alloc_seq channel_id m in
    ((seq, to_frame (new_message channel_id seq msg_type payload)), m')

pub inbox_len : Messenger → Heap → Result ℕ
inbox_len m h = Inbox.len m.inbox h

pub try_recv : Messenger → Heap → Result (Option Message × Heap)
try_recv m h = Inbox.pop m.inbox h

pub try_recv_channel : Messenger → ℕ → Heap → Result (Option Message × Heap)
try_recv_channel m channel_id h = Inbox.pop_channel m.inbox channel_id h

-- `Inbox()`
pub inbox_of : Messenger → Inbox.Inbox
inbox_of m = m.inbox
