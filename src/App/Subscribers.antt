-- ===== src/App/Subscribers.antt =====
-- StableSubscriberSet (app/app.go): a sorted list of clients for each channel. The map reads a
-- missing key as the empty list: a function. The mutex makes each method one step.
pub mod Members
use shadowlark_go.Base.{ℕ, List, [], ◌∷◌, ◌++◌, ◌==◌, ltb, if◌then◌else◌}

abbrev pub SubscriberSet : Type 0
SubscriberSet = ℕ → List ℕ

pub new_subscriber_set : SubscriberSet
new_subscriber_set = λ _. []

-- `sort.Slice` by `<`: on numbers every sort gives the same list.
insert : ℕ → List ℕ → List ℕ
insert x [] = x ∷ []
insert x (y ∷ ys) = if ltb y x then y ∷ insert x ys else x ∷ y ∷ ys

pub sort : List ℕ → List ℕ
unfolding insert
sort [] = []
sort (x ∷ xs) = insert x (sort xs)

-- The loop over `in[1:]`; the first argument is the last element of `out`.
dedupe_after : ℕ → List ℕ → List ℕ
dedupe_after prev [] = []
dedupe_after prev (v ∷ vs) = let rest = dedupe_after v vs in if v == prev then rest else v ∷ rest

pub dedupe : List ℕ → List ℕ
unfolding dedupe_after
dedupe [] = []
dedupe (x ∷ xs) = x ∷ dedupe_after x xs

abbrev pub update : ℕ → List ℕ → SubscriberSet → SubscriberSet
update channel_id list s = λ c. if c == channel_id then list else s c

pub add : ℕ → ℕ → SubscriberSet → SubscriberSet
unfolding sort dedupe
add channel_id client_id s = update channel_id (dedupe (sort (s channel_id ++ (client_id ∷ [])))) s

without : ℕ → List ℕ → List ℕ
without client_id [] = []
without client_id (id ∷ list) =
    let rest = without client_id list in if id == client_id then rest else id ∷ rest

pub remove : ℕ → ℕ → SubscriberSet → SubscriberSet
unfolding without
remove channel_id client_id s = update channel_id (without client_id (s channel_id)) s

pub subscribers : ℕ → SubscriberSet → List ℕ
subscribers channel_id s = s channel_id
