-- ===== src/App/Inbox/Delivery.antt =====
-- Calls of Push, Pop and PopChannel (app/app.go) against the queue of each channel.
use mathlib.Core.List.{append-nil, append_assoc}
use shadowlark_go.Base.{ℕ, zero, suc, ◌≡◌, ◌≢◌, refl, sym, ap, ◌∙◌, Bool-cases, inl, inr, ◌⊎◌}
use shadowlark_go.Base.{
  List, [], ◌∷◌, ◌++◌, ◌==◌, if◌then◌else◌, get_elem?, set, Option, none, some, Result, ok, panic,
}
use shadowlark_go.Base.{◌>>=◌, ==_iff}
use shadowlark_go.Base.{arith, false}
use shadowlark_go.App.{Message}
use shadowlark_go.App.Inbox.{Inbox, Heap, push, pop, pop_head, pop_channel, take_channel, queue}

-- The messages of one channel, in order
abbrev pub on_channel : ℕ → List Message → List Message
on_channel c [] = []
on_channel c (m ∷ q) = let rest = on_channel c q in if m.channel_id == c then m ∷ rest else rest

on_channel-append :
    (c : ℕ) (q r : List Message) → on_channel c (q ++ r) ≡ on_channel c q ++ on_channel c r
on_channel-append c [] r = refl
on_channel-append c (m ∷ q) r = elim (Bool-cases (m.channel_id == c)) [
  | inl same ↦ rw (same, on_channel-append c q r)
  | inr other ↦ rw (other, on_channel-append c q r)
]

-- The first message of channel `d` is taken out of the queue.
abbrev pub IsFirstOf : ℕ → List Message → Message → List Message → Type 0
IsFirstOf d q m q' =
    (before : List Message) × (after : List Message) × (q ≡ before ++ (m ∷ after))
    × (q' ≡ before ++ after)
    × (m.channel_id ≡ d)
    × (on_channel d before ≡ [])

take_channel_cases :
    (d : ℕ) (q : List Message)
    → ((take_channel d q ≡ none) × (on_channel d q ≡ []))
      ⊎ ((m : Message) × (q' : List Message) × (take_channel d q ≡ some (m, q'))
          × IsFirstOf d q m q')
unfolding take_channel
take_channel_cases d [] = inl (refl, refl)
take_channel_cases d (x ∷ q) = elim (Bool-cases (x.channel_id == d)) [
  | inl same ↦ rw same (inr (x, q, refl, ([], q, refl, refl, (==_iff x.channel_id d).0 same, refl)))
  | inr other ↦ elim (take_channel_cases d q) [
    | inl (e, absent) ↦ rw (other, e) (inl (refl, absent))
    | inr (m, q', e, (before, after, split, rest, channel, absent)) ↦
        rw (other, e)
          (inr (
            m,
            x ∷ q',
            refl,
            (
              x ∷ before,
              after,
              ap (λ r. x ∷ r) split,
              ap (λ r. x ∷ r) rest,
              channel,
              rw other absent,
            ),
          ))
  ]
]

first-on_channel :
    (d c : ℕ) (m : Message) (before after : List Message)
    → m.channel_id ≡ d
    → on_channel d before ≡ []
    → on_channel c (m ∷ []) ++ on_channel c (before ++ after) ≡ on_channel c (before ++ (m ∷ after))
first-on_channel d c m before after channel absent =
    rw (on_channel-append c before after, on_channel-append c before (m ∷ after))
      (elim (Bool-cases (m.channel_id == c)) [
        | inl same ↦
            let here : on_channel c before ≡ [] =
              ap (λ x. on_channel x before) (sym ((==_iff m.channel_id c).0 same) ∙ channel)
              ∙ absent in
            rw (same, here)
        | inr other ↦ rw other
      ])

-- A call on the inbox
pub data Call : Type 0 where
  pushed : Message → Call
  popped : Call
  popped_channel : ℕ → Call

-- The call, and the message that it received
pub call_on : Inbox → Call → Heap → Result (Option Message × Heap)
call_on i (pushed m) h = do h' ← push i m h; ok (none, h')
call_on i popped h = pop i h
call_on i (popped_channel d) h = pop_channel i d h

abbrev pub received : Option Message → List Message
received none = []
received (some m) = m ∷ []

abbrev pub sent : Call → List Message
sent (pushed m) = m ∷ []
sent popped = []
sent (popped_channel d) = []

get_elem?-set :
    (h : Heap) (i j : ℕ) (q r : List Message)
    → get_elem? h i ≡ some q
    → (get_elem? (set h i r) i ≡ some r) × (j ≢ i → get_elem? (set h i r) j ≡ get_elem? h j)
get_elem?-set [] i j q r e = cc
get_elem?-set (x ∷ h) zero zero q r e = (refl, λ k. absurd (k refl))
get_elem?-set (x ∷ h) zero (suc j) q r e = (refl, λ k. refl)
get_elem?-set (x ∷ h) (suc i) zero q r e = ((get_elem?-set h i zero q r e).0, λ k. refl)
get_elem?-set (x ∷ h) (suc i) (suc j) q r e =
    let (at_i, elsewhere) = get_elem?-set h i j q r e in (at_i, λ k. elsewhere (λ p. k (ap suc p)))

queue-some : (i : Inbox) (h : Heap) (q : List Message) → get_elem? h i ≡ some q → queue i h ≡ ok q
unfolding queue
queue-some i h q e =
    ap
      (λ (o : Option (List Message)). elim o as (λ x. Result (List Message)) [
        | none ↦ panic
        | some r ↦ ok r
      ])
      e

pub push-some :
    (i : Inbox) (m : Message) (h : Heap) (q : List Message)
    → get_elem? h i ≡ some q
    → push i m h ≡ ok (set h i (q ++ (m ∷ [])))
unfolding push
push-some i m h q e = rw (queue-some i h q e)

-- What a call does to the heap `h` where the inbox `i` holds `q`
abbrev Handled : Inbox → Call → Heap → List Message → Type 0
Handled i call h q =
    (o : Option Message) × (h' : Heap) × (q' : List Message) × (call_on i call h ≡ ok (o, h'))
    × (get_elem? h' i ≡ some q')
    × ((c : ℕ)
        → on_channel c (received o) ++ on_channel c q' ≡ on_channel c q ++ on_channel c (sent call))
    × ((j : ℕ) → j ≢ i → get_elem? h' j ≡ get_elem? h j)

call_on-Handled :
    (i : Inbox) (call : Call) (h : Heap) (q : List Message)
    → get_elem? h i ≡ some q
    → Handled i call h q
unfolding call_on push pop pop_head pop_channel
call_on-Handled i (pushed m) h q e = (
  none,
  set h i (q ++ (m ∷ [])),
  q ++ (m ∷ []),
  rw (queue-some i h _ e),
  (get_elem?-set h i 0 q (q ++ (m ∷ [])) e).0,
  λ c. on_channel-append c q (m ∷ []),
  λ j. (get_elem?-set h i j q (q ++ (m ∷ [])) e).1,
)
call_on-Handled i popped h [] e = (none, h, [], rw (queue-some i h _ e), e, λ c. refl, λ j k. refl)
call_on-Handled i popped h (m ∷ q) e = (
  some m,
  set h i q,
  q,
  rw (queue-some i h _ e),
  (get_elem?-set h i 0 (m ∷ q) q e).0,
  λ c. first-on_channel m.channel_id c m [] q refl refl ∙ sym (append-nil _),
  λ j. (get_elem?-set h i j (m ∷ q) q e).1,
)
call_on-Handled i (popped_channel d) h q e = elim (take_channel_cases d q) [
  | inl (gone, absent) ↦ (
    none,
    h,
    q,
    rw (queue-some i h q e, gone),
    e,
    λ c. sym (append-nil (on_channel c q)),
    λ j k. refl,
  )
  | inr (m, q', found, (before, after, split, rest, channel, absent)) ↦ (
    some m,
    set h i q',
    q',
    rw (queue-some i h q e, found),
    (get_elem?-set h i 0 q q' e).0,
    λ c. rw (split, rest) (first-on_channel d c m before after channel absent ∙ sym (append-nil _)),
    λ j. (get_elem?-set h i j q q' e).1,
  )
]

pub call_all : Inbox → List Call → Heap → Result (List Message × Heap)
call_all i [] h = ok ([], h)
call_all i (call ∷ calls) h = do
  (o, h') ← call_on i call h
  (ms, h'') ← call_all i calls h'
  ok (received o ++ ms, h'')

abbrev pub sent_all : List Call → List Message
sent_all [] = []
sent_all (call ∷ calls) = sent call ++ sent_all calls

call_all_lem :
    (i : Inbox) (calls : List Call) (h : Heap) (q : List Message)
    → get_elem? h i ≡ some q
    → (ms : List Message) × (h' : Heap) × (q' : List Message) × (call_all i calls h ≡ ok (ms, h'))
      × (get_elem? h' i ≡ some q')
      × ((c : ℕ)
          → on_channel c ms ++ on_channel c q' ≡ on_channel c q ++ on_channel c (sent_all calls))
      × ((j : ℕ) → j ≢ i → get_elem? h' j ≡ get_elem? h j)
unfolding call_all
call_all_lem i [] h q e = ([], h, q, refl, e, λ c. sym (append-nil (on_channel c q)), λ j k. refl)
call_all_lem i (call ∷ calls) h q e =
    let (o, h1, q1, done, at_i, kept, elsewhere) = call_on-Handled i call h q e in
    let (ms, h', q', rest, at_end, kept_rest, elsewhere_rest) = call_all_lem i calls h1 q1 at_i in
    (
      received o ++ ms,
      h',
      q',
      rw (done, rest),
      at_end,
      λ c. rw (
        on_channel-append c (received o) ms,
        append_assoc (on_channel c (received o)) (on_channel c ms) (on_channel c q'),
        kept_rest c,
        ← append_assoc (on_channel c (received o)) (on_channel c q1)
            (on_channel c (sent_all calls)),
        kept c,
        append_assoc (on_channel c q) (on_channel c (sent call)) (on_channel c (sent_all calls)),
        ← on_channel-append c (sent call) (sent_all calls),
      ),
      λ j k. elsewhere_rest j k ∙ elsewhere j k,
    )

differ : (j i : ℕ) → (j == i) ≡ false → j ≢ i
differ j i other = ground arith

-- Whatever calls of Push, Pop and PopChannel are made on an inbox, through any of its copies, none
-- panics; in each channel the messages that were received, followed by those still queued, are those
-- that were queued at first, followed by those that were pushed, in this order; and every other
-- inbox is as before.
pub every_message_once :
    (i : Inbox) (calls : List Call) (h : Heap) (q : List Message)
    → get_elem? h i ≡ some q
    → (ms : List Message) × (h' : Heap) × (q' : List Message) × (call_all i calls h ≡ ok (ms, h'))
      × ((c : ℕ)
          → on_channel c ms ++ on_channel c q' ≡ on_channel c q ++ on_channel c (sent_all calls))
      × ((j : ℕ) → get_elem? h' j ≡ (if j == i then some q' else get_elem? h j))
every_message_once i calls h q e =
    let (ms, h', q', done, at_i, kept, elsewhere) = call_all_lem i calls h q e in
    (
      ms,
      h',
      q',
      done,
      kept,
      λ j. elim (Bool-cases (j == i)) [
        | inl same ↦ rw same (ap (get_elem? h') ((==_iff j i).0 same) ∙ at_i)
        | inr other ↦ rw other (elsewhere j (λ k. differ j i other k))
      ],
    )

-- On an inbox that holds `q`, PopChannel either finds no message of the channel and changes nothing,
-- or takes out the first one and leaves all the others in their order.
pub pop_channel_cases :
    (i : Inbox) (d : ℕ) (h : Heap) (q : List Message)
    → get_elem? h i ≡ some q
    → ((pop_channel i d h ≡ ok (none, h)) × (on_channel d q ≡ []))
      ⊎ ((m : Message) × (q' : List Message) × (pop_channel i d h ≡ ok (some m, set h i q'))
          × IsFirstOf d q m q')
unfolding pop_channel
pop_channel_cases i d h q e = elim (take_channel_cases d q) [
  | inl (gone, absent) ↦ inl (rw (queue-some i h q e, gone), absent)
  | inr (m, q', found, first) ↦ inr (m, q', rw (queue-some i h q e, found), first)
]
