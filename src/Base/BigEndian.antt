-- ===== src/Base/BigEndian.antt =====
-- Package encoding/binary of Go's library: a number as its bytes, the highest first.
use Prim.Native.Nat.{ℕ, zero, suc, ◌+◌, ◌*◌, ◌/◌, ◌%◌, ◌^◌, ◌<◌}
use mathlib.Core.Path.{◌≡◌, refl, ap, ◌∙◌}
use mathlib.Core.List.{List, [], ◌∷◌, ◌++◌, reverse, foldl, foldl-append, reverse-append}
use mathlib.Core.List.{reverse-reverse}
use native.Mathlib.Omega.{arith}
use native.Mathlib.Nat.{add-zero, zero-add, add-suc, suc-add}
use shadowlark_go.Base.Lists.{length, length-append, All, All-append}

-- `binary.BigEndian.PutUint16`, `PutUint32` and `PutUint64` write 2, 4 and 8 bytes.
unfoldable pub be_put : ℕ → ℕ → List ℕ
be_put zero v = []
be_put (suc k) v = be_put k (v / 256) ++ (v % 256 ∷ [])

-- `binary.BigEndian.Uint16`, `Uint32` and `Uint64`
unfoldable pub be_get : List ℕ → ℕ
be_get = foldl (λ acc b. acc * 256 + b) 0

pub length-be_put : (k v : ℕ) → length (be_put k v) ≡ k
unfolding be_put
length-be_put zero v = refl
length-be_put (suc k) v =
    omega (arith, length-append {0} (be_put k (v / 256)) (v % 256 ∷ []), length-be_put k (v / 256))

pub be_put-bytes : (k v : ℕ) → All (λ b. b < 256) (be_put k v)
unfolding be_put
be_put-bytes zero v = tt
be_put-bytes (suc k) v =
    All-append (λ b. b < 256) (be_put k (v / 256)) _ (be_put-bytes k (v / 256)) (omega arith, tt)

be_get-snoc : (bs : List ℕ) (b : ℕ) → be_get (bs ++ (b ∷ [])) ≡ be_get bs * 256 + b
unfolding be_get
be_get-snoc bs b = rw foldl-append

pub be_get-be_put : (k v : ℕ) → v < 256 ^ k → be_get (be_put k v) ≡ v
unfolding be_put
be_get-be_put zero v h = unfold be_get in omega arith
be_get-be_put (suc k) v h =
    omega
      (arith, be_get-snoc (be_put k (v / 256)) (v % 256), be_get-be_put k (v / 256) (omega arith))

be_put-be_get_snoc :
    (k : ℕ) (bs : List ℕ) (b : ℕ)
    → b < 256
    → be_put (suc k) (be_get (bs ++ (b ∷ []))) ≡ be_put k (be_get bs) ++ (b ∷ [])
unfolding be_put
be_put-be_get_snoc k bs b h =
    let q : (be_get bs * 256 + b) / 256 ≡ be_get bs = omega arith in
    let r : (be_get bs * 256 + b) % 256 ≡ b = omega arith in rw (be_get-snoc bs b, q, r)

be_put_get_reversed :
    (bs : List ℕ) → All (λ b. b < 256) bs → be_put (length bs) (be_get (reverse bs)) ≡ reverse bs
be_put_get_reversed [] h = unfold be_put in refl
be_put_get_reversed (b ∷ bs) (hb, hbs) = rw (reverse-append (b ∷ []) bs) (
    be_put-be_get_snoc (length bs) (reverse bs) b hb
    ∙ ap (λ (l : List ℕ). l ++ (b ∷ [])) (be_put_get_reversed bs hbs))

length-reverse : (bs : List ℕ) → length (reverse bs) ≡ length bs
length-reverse [] = refl
length-reverse (b ∷ bs) =
    rw (reverse-append (b ∷ []) bs)
      (omega (arith, length-append {0} (reverse bs) (b ∷ []), length-reverse bs))

All-reverse : (bs : List ℕ) → All (λ b. b < 256) bs → All (λ b. b < 256) (reverse bs)
All-reverse [] h = tt
All-reverse (b ∷ bs) (hb, hbs) =
    rw (reverse-append (b ∷ []) bs)
      (All-append (λ b. b < 256) (reverse bs) _ (All-reverse bs hbs) (hb, tt))

-- Every list of bytes is what `be_put` writes for its number.
pub be_put-be_get : (bs : List ℕ) → All (λ b. b < 256) bs → be_put (length bs) (be_get bs) ≡ bs
be_put-be_get bs h =
    rw (length-reverse bs, reverse-reverse bs) at
      (be_put_get_reversed (reverse bs) (All-reverse bs h))

be_get_fold-lt :
    (bs : List ℕ) (k acc : ℕ)
    → All (λ b. b < 256) bs
    → acc < 256 ^ k
    → foldl (λ acc b. acc * 256 + b) acc bs < 256 ^ (k + length bs)
be_get_fold-lt [] k acc h lt = rw add-zero lt
be_get_fold-lt (b ∷ bs) k acc (hb, hbs) lt =
    rw (add-suc k (length bs), ← suc-add k (length bs))
      (be_get_fold-lt bs (suc k) (acc * 256 + b) hbs (omega arith))

pub be_get-lt : (bs : List ℕ) → All (λ b. b < 256) bs → be_get bs < 256 ^ length bs
unfolding be_get
be_get-lt bs h = rw (zero-add (length bs)) at (be_get_fold-lt bs 0 0 h (omega arith))
