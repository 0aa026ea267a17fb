-- ===== src/App/Subscribers/Members.antt =====
-- The subscriber lists (app/app.go) against the sets of pairs that they stand for.
use shadowlark_go.Base.{
  ℕ, ◌<◌, ◌≤◌, ◌≡◌, refl, arith, ap, subst, ◌∙◌, ==_iff, Bool, false, not, ◌||◌, ◌&&◌,
}
use shadowlark_go.Base.{List, [], ◌∷◌, ◌++◌, ◌==◌, ltb, Bool-cases, inl, inr}
use shadowlark_go.App.Subscribers.{SubscriberSet, insert, sort, dedupe_after, dedupe, add}
use shadowlark_go.App.Subscribers.{without, remove, subscribers, new_subscriber_set}

unfoldable pub mem : ℕ → List ℕ → Bool
mem a [] = false
mem a (x ∷ xs) = a == x || mem a xs

-- Sorted, with repetitions: every element is at least the one before, at least `lo`
abbrev IsSortedFrom : ℕ → List ℕ → Type 0
IsSortedFrom lo [] = Unit
IsSortedFrom lo (x ∷ xs) = (lo ≤ x) × IsSortedFrom x xs

-- Strictly sorted, with every element above `lo`
abbrev IsStrictFrom : ℕ → List ℕ → Type 0
IsStrictFrom lo [] = Unit
IsStrictFrom lo (x ∷ xs) = (lo < x) × IsStrictFrom x xs

abbrev pub IsStrict : List ℕ → Type 0
IsStrict [] = Unit
IsStrict (x ∷ xs) = IsStrictFrom x xs

insert-IsSortedFrom :
    (lo x : ℕ) (ys : List ℕ) → lo ≤ x → IsSortedFrom lo ys → IsSortedFrom lo (insert x ys)
unfolding insert
insert-IsSortedFrom lo x [] h s = (h, tt)
insert-IsSortedFrom lo x (y ∷ ys) h (hy, s) = elim (Bool-cases (ltb y x)) [
  | inl below ↦ rw below (hy, insert-IsSortedFrom y x ys (ground arith) s)
  | inr above ↦ rw above (h, (ground arith, s))
]

sort-IsSortedFrom : (xs : List ℕ) → IsSortedFrom 0 (sort xs)
unfolding sort
sort-IsSortedFrom [] = tt
sort-IsSortedFrom (x ∷ xs) = insert-IsSortedFrom 0 x (sort xs) (omega arith) (sort-IsSortedFrom xs)

mem-insert : (a x : ℕ) (ys : List ℕ) → mem a (insert x ys) ≡ (a == x || mem a ys)
unfolding mem insert
mem-insert a x [] = refl
mem-insert a x (y ∷ ys) = ground (arith, mem-insert a x ys)

mem-sort : (a : ℕ) (xs : List ℕ) → mem a (sort xs) ≡ mem a xs
unfolding mem sort
mem-sort a [] = refl
mem-sort a (x ∷ xs) = mem-insert a x (sort xs) ∙ rw (mem-sort a xs)

mem-append : (a : ℕ) (xs ys : List ℕ) → mem a (xs ++ ys) ≡ (mem a xs || mem a ys)
unfolding mem
mem-append a [] ys = refl
mem-append a (x ∷ xs) ys = ground (arith, mem-append a xs ys)

dedupe_after-IsStrictFrom :
    (prev : ℕ) (xs : List ℕ) → IsSortedFrom prev xs → IsStrictFrom prev (dedupe_after prev xs)
unfolding dedupe_after
dedupe_after-IsStrictFrom prev [] s = tt
dedupe_after-IsStrictFrom prev (v ∷ vs) (h, s) =
    let rest = dedupe_after-IsStrictFrom v vs s in
    elim (Bool-cases (v == prev)) [
      | inl same ↦
          simp same (subst (λ n. IsStrictFrom n (dedupe_after v vs)) ((==_iff v prev).0 same) rest)
      | inr other ↦ rw other (ground arith, rest)
    ]

mem-dedupe_after :
    (a prev : ℕ) (xs : List ℕ)
    → (a == prev || mem a (dedupe_after prev xs)) ≡ (a == prev || mem a xs)
unfolding mem dedupe_after
mem-dedupe_after a prev [] = refl
mem-dedupe_after a prev (v ∷ vs) = ground (arith, mem-dedupe_after a v vs)

mem-dedupe : (a : ℕ) (xs : List ℕ) → mem a (dedupe xs) ≡ mem a xs
unfolding mem dedupe
mem-dedupe a [] = refl
mem-dedupe a (x ∷ xs) = mem-dedupe_after a x xs

mem-without : (a id : ℕ) (xs : List ℕ) → mem a (without id xs) ≡ (mem a xs && not (a == id))
unfolding mem without
mem-without a id [] = refl
mem-without a id (x ∷ xs) = ground (arith, mem-without a id xs)

without-IsStrictFrom :
    (lo low id : ℕ) (xs : List ℕ) → lo ≤ low → IsStrictFrom low xs → IsStrictFrom lo (without id xs)
unfolding without
without-IsStrictFrom lo low id [] h s = tt
without-IsStrictFrom lo low id (x ∷ xs) h (hx, s) = elim (Bool-cases (x == id)) [
  | inl gone ↦ simp gone (without-IsStrictFrom lo x id xs (omega arith) s)
  | inr kept ↦ rw kept (omega arith, without-IsStrictFrom x x id xs (omega arith) s)
]

IsStrictFrom-IsStrict : (lo : ℕ) (xs : List ℕ) → IsStrictFrom lo xs → IsStrict xs
IsStrictFrom-IsStrict lo [] s = tt
IsStrictFrom-IsStrict lo (x ∷ xs) (h, s) = s

without-IsStrict : (id : ℕ) (xs : List ℕ) → IsStrict xs → IsStrict (without id xs)
unfolding without
without-IsStrict id [] s = tt
without-IsStrict id (x ∷ xs) s = elim (Bool-cases (x == id)) [
  | inl gone ↦
      simp gone (IsStrictFrom-IsStrict x _ (without-IsStrictFrom x x id xs (omega arith) s))
  | inr kept ↦ rw kept (without-IsStrictFrom x x id xs (omega arith) s)
]

dedupe-IsStrict : (xs : List ℕ) → IsSortedFrom 0 xs → IsStrict (dedupe xs)
unfolding dedupe
dedupe-IsStrict [] s = tt
dedupe-IsStrict (x ∷ xs) (h, s) = dedupe_after-IsStrictFrom x xs s

-- A call that changes the set: the channel and the client
pub data Call : Type 0 where
  added removed : ℕ → ℕ → Call

pub apply : Call → SubscriberSet → SubscriberSet
apply (added channel_id client_id) s = add channel_id client_id s
apply (removed channel_id client_id) s = remove channel_id client_id s

-- What a call does to the answer whether `client` is subscribed to `channel`
abbrev pub answer : Call → ℕ → ℕ → Bool → Bool
answer (added channel_id client_id) channel client before =
    before || (channel == channel_id && client == client_id)
answer (removed channel_id client_id) channel client before =
    before && not (channel == channel_id && client == client_id)

mem-apply :
    (call : Call) (s : SubscriberSet) (channel client : ℕ)
    → mem client (subscribers channel (apply call s))
      ≡ answer call channel client (mem client (subscribers channel s))
unfolding apply add remove subscribers
mem-apply (added c d) s channel client = elim (Bool-cases (channel == c)) [
  | inl same ↦
      let same_channel = (==_iff channel c).0 same in
      rw
        (
          same,
          same_channel,
          mem-dedupe client (sort (s c ++ (d ∷ []))),
          mem-sort client (s c ++ (d ∷ [])),
          mem-append client (s c) (d ∷ []),
        )
        (unfold mem in ground arith)
  | inr other ↦ ground (arith, other)
]
mem-apply (removed c d) s channel client = elim (Bool-cases (channel == c)) [
  | inl same ↦
      let same_channel = (==_iff channel c).0 same in
      rw (same, same_channel, mem-without client d (s c)) (ground arith)
  | inr other ↦ ground (arith, other)
]

apply-IsStrict :
    (call : Call) (s : SubscriberSet) (channel : ℕ)
    → ((c : ℕ) → IsStrict (subscribers c s))
    → IsStrict (subscribers channel (apply call s))
unfolding apply add remove subscribers
apply-IsStrict (added c d) s channel h = elim (Bool-cases (channel == c)) [
  | inl same ↦ rw same (dedupe-IsStrict _ (sort-IsSortedFrom (s c ++ (d ∷ []))))
  | inr other ↦ rw other (h channel)
]
apply-IsStrict (removed c d) s channel h = elim (Bool-cases (channel == c)) [
  | inl same ↦ rw same (without-IsStrict d (s c) (h c))
  | inr other ↦ rw other (h channel)
]

pub apply_all : List Call → SubscriberSet → SubscriberSet
apply_all [] s = s
apply_all (call ∷ calls) s = apply_all calls (apply call s)

abbrev pub answer_all : List Call → ℕ → ℕ → Bool → Bool
answer_all [] channel client before = before
answer_all (call ∷ calls) channel client before =
    answer_all calls channel client (answer call channel client before)

apply_all_lem :
    (calls : List Call) (s : SubscriberSet) (channel client : ℕ)
    → ((c : ℕ) → IsStrict (subscribers c s))
    → IsStrict (subscribers channel (apply_all calls s))
      × (mem client (subscribers channel (apply_all calls s))
          ≡ answer_all calls channel client (mem client (subscribers channel s)))
unfolding apply_all
apply_all_lem [] s channel client h = (h channel, refl)
apply_all_lem (call ∷ calls) s channel client h =
    let (strict, same) =
      apply_all_lem calls (apply call s) channel client (λ c. apply-IsStrict call s c h) in
    (strict, same ∙ ap (answer_all calls channel client) (mem-apply call s channel client))

-- After any calls of Add and Remove on a new set, each channel's list is strictly ascending, so that
-- no client stands in it twice, and a client stands in it exactly if the calls, taken one after the
-- other as insertions and deletions of a set of pairs, leave it there.
pub subscribers_after :
    (calls : List Call) (channel client : ℕ)
    → IsStrict (subscribers channel (apply_all calls new_subscriber_set))
      × (mem client (subscribers channel (apply_all calls new_subscriber_set))
          ≡ answer_all calls channel client false)
unfolding subscribers new_subscriber_set mem
subscribers_after calls channel client =
    apply_all_lem calls new_subscriber_set channel client (λ c. tt)
