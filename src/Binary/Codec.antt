-- ===== src/Binary/Codec.antt =====
-- What a reader and an encoding owe one another, and how that is put together: one rule for each
-- way in which the program builds a reader.
use mathlib.Core.List.{append-nil, append_assoc}
use shadowlark_go.Base.{ℕ, ◌≡◌, ◌≢◌, refl, sym, ap, subst, ◌∙◌, Bool, true, false}
use shadowlark_go.Base.{List, [], ◌∷◌, ◌++◌, length, All, IsByte, if◌then◌else◌}
use shadowlark_go.Base.{All-append_right, Result, ok, err, panic, Error, ◌⊎◌, inl, inr}
use shadowlark_go.Binary.{Decoder, Reader, pure, fail, continue, ◌>>=◌}

-- A decoder that stands behind `pre`, with `rest` unread.
unfoldable pub seek : List ℕ → List ℕ → Decoder
seek pre rest = record { buf = pre ++ rest; pos = length pre }

pub record IsCodec {A : Type 0} (read : Reader A) (encode : A → List ℕ) (Good : A → Type 0)
    : Type 0 where
  -- An encoding is read back, and what follows it is left.
  pub complete :
      (a : A) (pre rest : List ℕ)
      → Good a
      → read (seek pre (encode a ++ rest)) ≡ (ok a, seek (pre ++ encode a) rest)
  -- Nothing but an encoding is read.
  pub sound :
      (pre bs : List ℕ) (a : A) (d : Decoder)
      → All IsByte bs
      → read (seek pre bs) ≡ (ok a, d)
      → Good a × (rest : List ℕ) × (bs ≡ encode a ++ rest) × (d ≡ seek (pre ++ encode a) rest)
  -- A proper prefix of an encoding is refused.
  pub short :
      (a : A) (pre front back : List ℕ) (x : ℕ)
      → Good a
      → encode a ≡ front ++ (x ∷ back)
      → (read (seek pre front)).0 ≡ err Error.buffer_underflow
  -- No input makes it panic.
  pub total : (pre bs : List ℕ) → All IsByte bs → (read (seek pre bs)).0 ≢ panic

nil≢snoc : (front back : List ℕ) (x : ℕ) → ◌≢◌ {A = List ℕ} [] (front ++ (x ∷ back))
nil≢snoc [] back x h = cc
nil≢snoc (y ∷ front) back x h = cc

append_split :
    (xs ys front back : List ℕ) (x : ℕ)
    → xs ++ ys ≡ front ++ (x ∷ back)
    → ((rest : List ℕ) × (front ≡ xs ++ rest) × (ys ≡ rest ++ (x ∷ back)))
      ⊎ ((y : ℕ) × (more : List ℕ) × (xs ≡ front ++ (y ∷ more)))
append_split [] ys front back x h = inl (front, refl, h)
append_split (a ∷ as') ys [] back x h = inr (a, as', refl)
append_split (a ∷ as') ys (b ∷ front) back x h = elim (append_split as' ys front back x (cc)) [
  | inl (rest, p, q) ↦ inl (rest, cc, q)
  | inr (y, more, p) ↦ inr (y, more, cc)
]

module _ {A B : Type 0} (next : A → Reader B) where
  continue-err :
      (out : Result A × Decoder) (e : Error) → out.0 ≡ err e → (continue out.0 next out.1).0 ≡ err e
  continue-err (ok a, d) e h = cc
  continue-err (err x, d) e h = cc
  continue-err (panic, d) e h = cc

module _ {A B : Type 0} (read : Reader A) (next : A → Reader B) (encode : A → List ℕ)
    (GoodPart : A → Type 0) (part : B → A) (tail : B → List ℕ) (Good : B → Type 0)
    (cr : IsCodec read encode GoodPart)
    (cn : (a : A) → GoodPart a → IsCodec (next a) tail (λ b. Good b × (part b ≡ a)))
    (good : (b : B) → Good b → GoodPart (part b)) where
  abbrev joined : B → List ℕ
  joined b = encode (part b) ++ tail b

  bind_complete :
      (b : B) (pre rest : List ℕ)
      → Good b
      → (read >>= next) (seek pre (joined b ++ rest)) ≡ (ok b, seek (pre ++ joined b) rest)
  bind_complete b pre rest g = rw (
    append_assoc (encode (part b)) (tail b) rest,
    cr.complete (part b) pre (tail b ++ rest) (good b g),
    (cn (part b) (good b g)).complete b (pre ++ encode (part b)) rest (g, refl),
    append_assoc pre (encode (part b)) (tail b),
  )

  bind_sound_at :
      (pre bs : List ℕ) (b : B) (d : Decoder) (out : Result A × Decoder)
      → All IsByte bs
      → read (seek pre bs) ≡ out
      → continue out.0 next out.1 ≡ (ok b, d)
      → Good b × (rest : List ℕ) × (bs ≡ joined b ++ rest) × (d ≡ seek (pre ++ joined b) rest)
  bind_sound_at pre bs b d (ok a, d') h e k =
      let (ga, rest, p, q) = cr.sound pre bs a d' h e in
      let h' : All IsByte rest = All-append_right IsByte (encode a) rest (rw p at h) in
      let ((g, pe), rest', p', q') = (cn a ga).sound (pre ++ encode a) rest b d h' (rw q at k) in
      (
        g,
        rest',
        p
            ∙ ap (λ (l : List ℕ). encode a ++ l) p'
            ∙ rw pe (sym (append_assoc (encode a) (tail b) rest')),
        q' ∙ rw (pe, append_assoc pre (encode a) (tail b)),
      )
  bind_sound_at pre bs b d (err x, d') h e k = cc
  bind_sound_at pre bs b d (panic, d') h e k = cc

  bind_short :
      (b : B) (pre front back : List ℕ) (x : ℕ)
      → Good b
      → joined b ≡ front ++ (x ∷ back)
      → ((read >>= next) (seek pre front)).0 ≡ err Error.buffer_underflow
  bind_short b pre front back x g e =
      elim (append_split (encode (part b)) (tail b) front back x e) [
        | inl (rest, p, q) ↦
            rw (p, cr.complete (part b) pre rest (good b g))
              ((cn (part b) (good b g)).short b (pre ++ encode (part b)) rest back x (g, refl) q)
        | inr (y, more, p) ↦ continue-err next _ _ (cr.short (part b) pre front more y (good b g) p)
      ]

  bind_total_at :
      (pre bs : List ℕ) (out : Result A × Decoder)
      → All IsByte bs
      → read (seek pre bs) ≡ out
      → (continue out.0 next out.1).0 ≢ panic
  bind_total_at pre bs (ok a, d') h e =
      let (ga, rest, p, q) = cr.sound pre bs a d' h e in
      rw q (
        (cn a ga).total (pre ++ encode a) rest
          (All-append_right IsByte (encode a) rest (rw p at h)))
  bind_total_at pre bs (err x, d') h e = λ k. cc
  bind_total_at pre bs (panic, d') h e = absurd (cr.total pre bs h (ap (λ out. out.0) e))

  -- `a, err := read(); if err != nil { return err }`, and the statements after it
  pub bind-IsCodec : IsCodec (read >>= next) joined Good
  bind-IsCodec = record {
    complete = bind_complete;
    sound = λ pre bs b d h e. bind_sound_at pre bs b d (read (seek pre bs)) h refl e;
    short = bind_short;
    total = λ pre bs h. bind_total_at pre bs (read (seek pre bs)) h refl;
  }

module _ {A : Type 0} (Good : A → Type 0) where
  pub pure-IsCodec : (a : A) → Good a → ((b : A) → Good b → b ≡ a) → IsCodec (pure a) (λ b. []) Good
  pure-IsCodec a ga unique = record {
    complete = λ b pre rest g. rw (append-nil pre, unique b g);
    sound = λ pre bs b d h e.
        let eq : a ≡ b = cc (ap (λ (p : Result A × Decoder). p.0) e) in
        (
          subst Good eq ga,
          bs,
          refl,
          sym (ap (λ (p : Result A × Decoder). p.1) e) ∙ rw (append-nil pre),
        );
    short = λ b pre front back x g e. absurd (nil≢snoc front back x e);
    total = λ pre bs h e. cc;
  }

module _ {A : Type 0} (encode : A → List ℕ) (Good : A → Type 0) where
  pub fail-IsCodec : (e : Error) → ((a : A) → ¬ Good a) → IsCodec (fail e) encode Good
  fail-IsCodec e never = record {
    complete = λ a pre rest g. absurd (never a g);
    sound = λ pre bs a d h k. cc (ap (λ (p : Result A × Decoder). p.0) k);
    short = λ a pre front back x g k. absurd (never a g);
    total = λ pre bs h k. cc;
  }

  -- `if t { return err }`, and the statements after it
  pub guard-IsCodec :
      (t : Bool) (e : Error) (read : Reader A)
      → (t ≡ true → (a : A) → ¬ Good a)
      → (t ≡ false → IsCodec read encode Good)
      → IsCodec (if t then fail e else read) encode Good
  guard-IsCodec true e read never c = fail-IsCodec e (never refl)
  guard-IsCodec false e read never c = c refl

-- The same reader under another description of its encodings and of what is good.
pub IsCodec_cong :
    {A : Type 0} (read : Reader A) (encode encode' : A → List ℕ) (Good Good' : A → Type 0)
    → ((a : A) → encode a ≡ encode' a)
    → ((a : A) → Good' a → Good a)
    → ((a : A) → Good a → Good' a)
    → IsCodec read encode Good
    → IsCodec read encode' Good'
IsCodec_cong read encode encode' Good Good' e to from c = record {
  complete = λ a pre rest g. rw (← e a) (c.complete a pre rest (to a g));
  sound = λ pre bs a d h k.
      let (g, rest, p, q) = c.sound pre bs a d h k in (from a g, rest, p ∙ rw (e a), q ∙ rw (e a));
  short = λ a pre front back x g k. c.short a pre front back x (to a g) (e a ∙ k);
  total = c.total;
}
