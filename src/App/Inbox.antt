-- ===== src/App/Inbox.antt =====
-- Inbox (app/app.go): an `Inbox` value is a pointer to a queue that its copies share. The queues live
-- in a heap, a list in which the pointer is an index; a pointer that leads nowhere panics. The mutex
-- makes each method one step.
pub mod Delivery
use shadowlark_go.Base.{ℕ, List, [], ◌∷◌, ◌++◌, length, get_elem?, set, ◌==◌, if◌then◌else◌, Option}
use shadowlark_go.Base.{none, some, Result, ok, panic, ◌>>=◌}
use shadowlark_go.App.{Message}

abbrev pub Inbox : Type 0
Inbox = ℕ

abbrev pub Heap : Type 0
Heap = List (List Message)

pub new_inbox : Heap → Inbox × Heap
new_inbox h = (length h, h ++ ([] ∷ []))

-- `i.state.queue`
pub queue : Inbox → Heap → Result (List Message)
queue i h = elim (get_elem? h i) [ none ↦ panic | some q ↦ ok q ]

pub push : Inbox → Message → Heap → Result Heap
unfolding queue
push i m h = do q ← queue i h; ok (set h i (q ++ (m ∷ [])))

-- The head of the queue and what remains; `false` is `none`.
pop_head : Inbox → Heap → List Message → Option Message × Heap
pop_head i h [] = (none, h)
pop_head i h (m ∷ q) = (some m, set h i q)

pub pop : Inbox → Heap → Result (Option Message × Heap)
unfolding queue pop_head
pop i h = do q ← queue i h; ok (pop_head i h q)

-- The loop over the queue: the first message of the channel, and the queue without it.
pub take_channel : ℕ → List Message → Option (Message × List Message)
take_channel channel_id [] = none
take_channel channel_id (m ∷ q) =
    let rest = take_channel channel_id q in
    if m.channel_id == channel_id
    then some (m, q)
    else elim rest [ none ↦ none | some (n, q') ↦ some (n, m ∷ q') ]

pub pop_channel : Inbox → ℕ → Heap → Result (Option Message × Heap)
unfolding queue take_channel
pop_channel i channel_id h = do
  q ← queue i h
  ok (elim (take_channel channel_id q) [ none ↦ (none, h) | some (m, q') ↦ (some m, set h i q') ])

pub len : Inbox → Heap → Result ℕ
unfolding queue
len i h = do q ← queue i h; ok (length q)
