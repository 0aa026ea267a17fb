-- ===== src/Tests/Application.antt =====
-- Witnesses for package app.
use shadowlark_go.Base.{
  ℕ, ◌≡◌, refl, arith, ok, List, [], ◌∷◌, ◌++◌, false, ◌>>=◌, ◌⊎◌, some, none, get_elem?, set,
}
use shadowlark_go.Base.{◌==◌, if◌then◌else◌}
use shadowlark_go.Binary.{new_decoder}
use shadowlark_go.Frame
use shadowlark_go.Frame.RoundTrip.{encoded}
use shadowlark_go.App.{Message, Ack, Chunk, to_frame, from_frame, ack_to_message, ack_from_message}
use shadowlark_go.App.{chunk_to_message, chunk_from_message}
use shadowlark_go.App.Codec.{IsWire, IsWireChunk}
use shadowlark_go.App.RoundTrip.{message_over_wire, ack_from_message-ack_to_message}
use shadowlark_go.App.RoundTrip.{chunk_from_message-chunk_to_message}
use shadowlark_go.App.{new_message}
use shadowlark_go.App.Inbox
use shadowlark_go.App.Inbox.Delivery
use shadowlark_go.App.Inbox.Delivery.{
  pushed, popped, popped_channel, call_all, on_channel, sent_all,
}
use shadowlark_go.App.Inbox.Delivery.{every_message_once, pop_channel_cases, IsFirstOf}
use shadowlark_go.App.Messenger.{build_frame, new_messenger}
use shadowlark_go.App.Messenger.Counting.{Request, build_all, build_frame_counts}
use shadowlark_go.App.Subscribers.{subscribers, new_subscriber_set}
use shadowlark_go.App.Subscribers.Members
use shadowlark_go.Tests.Samples.{All-below}

abbrev pub message : Message
message = record { channel_id = 7; seq = 1; msg_type = 1; payload = 1 ∷ 2 ∷ [] }

pub message-IsWire : IsWire message
message-IsWire = record {
  channel_range = omega arith;
  seq_range = omega arith;
  type_range = omega arith;
  payload_bytes = All-below 256 (1 ∷ 2 ∷ []) refl;
  payload_fits = omega arith;
}

message_over_wire_example :
    ((Frame.decode (new_decoder (encoded (to_frame message) ++ (9 ∷ [])))).0
      ≡ ok (to_frame message))
    × (from_frame (to_frame message) ≡ ok message)
message_over_wire_example = message_over_wire message (9 ∷ []) message-IsWire

abbrev ack : Ack
ack = record { channel_id = 7; acked_seq = 4; is_nak = false }

ack_from_message-ack_to_message_example : (ack_to_message ack 2 >>= ack_from_message) ≡ ok ack
ack_from_message-ack_to_message_example = ack_from_message-ack_to_message ack 2 (omega arith)

abbrev chunk : Chunk
chunk = record { channel_id = 7; seq = 2; chunk_index = 0; chunk_total = 3; payload = 1 ∷ 2 ∷ [] }

chunk-IsWireChunk : IsWireChunk chunk
chunk-IsWireChunk = record {
  index_range = omega arith;
  total_range = omega arith;
  payload_bytes = All-below 256 (1 ∷ 2 ∷ []) refl;
  length_range = omega arith;
}

chunk_from_message-chunk_to_message_example :
    (chunk_to_message chunk >>= chunk_from_message) ≡ ok chunk
chunk_from_message-chunk_to_message_example =
    chunk_from_message-chunk_to_message chunk chunk-IsWireChunk

abbrev calls : List Delivery.Call
calls = pushed message ∷ pushed message ∷ popped_channel 7 ∷ popped ∷ popped ∷ []

abbrev heap : Inbox.Heap
heap = (message ∷ []) ∷ [] ∷ []

every_message_once_example :
    (ms : List Message) × (h' : Inbox.Heap) × (q' : List Message) × (call_all 0 calls heap
      ≡ ok (ms, h'))
    × ((c : ℕ)
        → on_channel c ms ++ on_channel c q'
          ≡ on_channel c (message ∷ []) ++ on_channel c (sent_all calls))
    × ((j : ℕ) → get_elem? h' j ≡ (if j == 0 then some q' else get_elem? heap j))
every_message_once_example = every_message_once 0 calls heap (message ∷ []) refl

pop_channel_cases_example :
    ((Inbox.pop_channel 0 7 heap ≡ ok (none, heap)) × (on_channel 7 (message ∷ []) ≡ []))
    ⊎ ((m : Message) × (q' : List Message) × (Inbox.pop_channel 0 7 heap
          ≡ ok (some m, set heap 0 q'))
        × IsFirstOf 7 (message ∷ []) m q')
pop_channel_cases_example = pop_channel_cases 0 7 heap (message ∷ []) refl

abbrev requests : List Request
requests = (7, 1, []) ∷ (8, 1, []) ∷ (7, 1, []) ∷ []

build_frame_counts_example :
    (build_frame 7 1 (5 ∷ []) (build_all requests (new_messenger heap).0)).0
    ≡ (2, to_frame (new_message 7 2 1 (5 ∷ [])))
build_frame_counts_example = build_frame_counts heap requests 7 1 (5 ∷ [])

abbrev subscriptions : List Members.Call
subscriptions = Members.added 1 9 ∷ Members.added 1 4 ∷ Members.removed 1 9 ∷ []

subscribers_after_example :
    Members.IsStrict (subscribers 1 (Members.apply_all subscriptions new_subscriber_set))
    × (Members.mem 4 (subscribers 1 (Members.apply_all subscriptions new_subscriber_set))
        ≡ Members.answer_all subscriptions 1 4 false)
subscribers_after_example = Members.subscribers_after subscriptions 1 4
