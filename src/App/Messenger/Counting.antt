-- ===== src/App/Messenger/Counting.antt =====
-- The sequence numbers that a messenger gives out.
use shadowlark_go.Base.{
  ℕ, suc, ◌+◌, ◌%◌, ◌^◌, ◌≡◌, sym, Bool-cases, inl, inr, ==_iff, arith, ap, ◌∙◌, List, [], ◌∷◌,
  ◌==◌, if◌then◌else◌,
}
use shadowlark_go.App.{new_message, to_frame}
use shadowlark_go.App.Inbox.{Heap}
use shadowlark_go.App.Messenger.{
  Messenger, new_messenger, new_messenger_with_inbox, alloc_seq, build_frame,
}

-- The arguments of a call of BuildFrame: the channel, the type and the payload
abbrev pub Request : Type 0
Request = ℕ × ℕ × List ℕ

pub build_all : List Request → Messenger → Messenger
build_all [] m = m
build_all ((channel_id, msg_type, payload) ∷ requests) m =
    build_all requests (build_frame channel_id msg_type payload m).1

abbrev pub count : ℕ → List Request → ℕ
count c [] = 0
count c ((channel_id, _, _) ∷ requests) =
    let rest = count c requests in if c == channel_id then suc rest else rest

next_seq-build_all :
    (requests : List Request) (m : Messenger) (c n : ℕ)
    → m.next_seq c ≡ n % 2 ^ 32
    → (build_all requests m).next_seq c ≡ (n + count c requests) % 2 ^ 32
unfolding build_all build_frame alloc_seq
next_seq-build_all [] m c n h = ground (arith, h)
next_seq-build_all ((channel_id, msg_type, payload) ∷ requests) m c n h =
    elim (Bool-cases (c == channel_id)) [
      | inl same ↦
          let here : m.next_seq channel_id ≡ n % 2 ^ 32 =
            ap m.next_seq (sym ((==_iff c channel_id).0 same)) ∙ h in
          let wrapped : (m.next_seq channel_id + 1) % 2 ^ 32 ≡ (n + 1) % 2 ^ 32 =
            omega (arith, here) in
          next_seq-build_all requests _ c (n + 1) (rw same wrapped) ∙ rw same (omega arith)
      | inr other ↦ next_seq-build_all requests _ c n (rw other h) ∙ rw other
    ]

-- On a new messenger, after any calls of BuildFrame, the next one for a channel returns the number of
-- the earlier ones for that channel modulo 2^32, whatever was built for other channels, and a frame
-- that holds the message with this number.
pub build_frame_counts :
    (h : Heap) (requests : List Request) (channel_id msg_type : ℕ) (payload : List ℕ)
    → (build_frame channel_id msg_type payload (build_all requests (new_messenger h).0)).0 ≡ (
      count channel_id requests % 2 ^ 32,
      to_frame (new_message channel_id (count channel_id requests % 2 ^ 32) msg_type payload),
    )
unfolding build_frame alloc_seq new_messenger new_messenger_with_inbox
build_frame_counts h requests channel_id msg_type payload =
    let numbered : (build_all requests (new_messenger h).0).next_seq channel_id
        ≡ count channel_id requests % 2 ^ 32 =
      next_seq-build_all requests (new_messenger h).0 channel_id 0 (omega arith) ∙ omega arith in
    rw numbered
