-- ===== src/Binary/RoundTrip.antt =====
-- The readers built from the primitive ones, and the headline facts of package binary.
use mathlib.Core.List.{append-nil, append_assoc}
use native.Mathlib.Nat.{mod-eq_of_lt}
use shadowlark_go.Base.{ℕ, ◌≡◌, refl, sym, ◌∙◌, Bool, true, false, arith, Bool-cases, inl, inr}
use shadowlark_go.Base.{List, [], ◌∷◌, ◌++◌, length, length-append, All, if◌then◌else◌, ok, Error}
use shadowlark_go.Base.{IsByte, IsU16, IsU32, IsU64, ◌==◌}
use shadowlark_go.Base.BigEndian.{be_put}
use shadowlark_go.Binary.{Encoder, Reader, bytes, new_encoder, new_decoder, remaining, pure, ◌>>=◌}
use shadowlark_go.Binary.{write_u8, write_u16, write_u32, write_u64, write_bool, write_var_bytes}
use shadowlark_go.Binary.{write_string, read_u8, read_u16, read_u32, read_u64, read_bool, bool_of}
use shadowlark_go.Binary.{read_exact, read_var_bytes, read_string}
use shadowlark_go.Binary.Utf8.{valid}
use shadowlark_go.Binary.Codec.{
  seek, IsCodec, bind-IsCodec, pure-IsCodec, fail-IsCodec, IsCodec_cong,
}
use shadowlark_go.Binary.Primitives.{read_exact-IsCodec, read_u8-IsCodec, read_u16-IsCodec}
use shadowlark_go.Binary.Primitives.{read_u32-IsCodec, read_u64-IsCodec}
use shadowlark_go.Binary.Writers.{bytes-write_u8, bytes-write_u16, bytes-write_u32, bytes-write_u64}
use shadowlark_go.Binary.Writers.{bytes-write_bool, bytes-write_var_bytes, bytes-write_string}
use shadowlark_go.Binary.Writers.{bytes-new_encoder, new_decoder-seek}

abbrev bool_bytes : Bool → List ℕ
bool_bytes v = (if v then 1 else 0) ∷ []

bool_of-IsCodec :
    (b : ℕ) → IsByte b → IsCodec (bool_of b) (λ v. []) (λ v. Unit {0} × ((if v then 1 else 0) ≡ b))
unfolding bool_of
bool_of-IsCodec b h = elim (Bool-cases (b == 0)) [
  | inl zero_byte ↦ rw zero_byte (pure-IsCodec _ false (tt, ground arith) (λ v k. ground arith))
  | inr nonzero ↦ elim (Bool-cases (b == 1)) [
    | inl one_byte ↦
        rw (nonzero, one_byte) (pure-IsCodec _ true (tt, ground arith) (λ v k. ground arith))
    | inr other ↦ rw (nonzero, other) (fail-IsCodec _ _ Error.invalid_bool (λ v k. ground arith))
  ]
]

pub read_bool-IsCodec : IsCodec read_bool bool_bytes (λ v. Unit {0})
unfolding read_bool
read_bool-IsCodec =
    bind-IsCodec read_u8 bool_of (λ b. b ∷ []) IsByte (λ v. if v then 1 else 0) (λ v. [])
      (λ v. Unit {0}) read_u8-IsCodec bool_of-IsCodec (λ v h. ground arith)

abbrev pub IsShort : List ℕ → Type 0
IsShort bs = All IsByte bs × IsU32 (length bs)

abbrev pub IsText : List ℕ → Type 0
IsText s = IsShort s × (valid s ≡ true)

abbrev pub var_bytes : List ℕ → List ℕ
var_bytes b = be_put 4 (length b) ++ b

pub read_var_bytes-IsCodec : IsCodec read_var_bytes var_bytes IsShort
unfolding read_var_bytes
read_var_bytes-IsCodec =
    bind-IsCodec read_u32 read_exact (be_put 4) IsU32 length (λ b. b) IsShort read_u32-IsCodec
      (λ n hn.
        IsCodec_cong _ _ _ _ _ (λ b. refl) (λ b h. (h.0.0, h.1)) (λ b h. ((h.0, rw h.1 hn), h.1))
          (read_exact-IsCodec n))
      (λ b h. h.1)

pub read_string-IsCodec : IsCodec read_string var_bytes IsText
unfolding read_string
read_string-IsCodec =
    IsCodec_cong _ _ var_bytes _ _ (λ s. append-nil (var_bytes s)) (λ s h. h) (λ s h. h)
      (bind-IsCodec read_var_bytes _ var_bytes IsShort (λ s. s) (λ s. []) IsText
        read_var_bytes-IsCodec
        (λ b h. elim (Bool-cases (valid b)) [
          | inl yes_text ↦ rw yes_text (pure-IsCodec _ b ((h, yes_text), refl) (λ s k. k.1))
          | inr no_text ↦ rw no_text (fail-IsCodec _ _ Error.invalid_utf8 (λ s k. cc (k.0.1, k.1)))
        ])
        (λ s h. h.0))

-- A fresh decoder over an encoding and what follows it.
pub decode_bytes :
    {A : Type 0} (read : Reader A) (encode : A → List ℕ) (Good : A → Type 0)
    (c : IsCodec read encode Good) (a : A) (rest : List ℕ)
    → Good a
    → read (new_decoder (encode a ++ rest)) ≡ (ok a, seek (encode a) rest)
decode_bytes read encode Good c a rest g = rw new_decoder-seek (c.complete a [] rest g)

pub remaining-seek : (pre rest : List ℕ) → remaining (seek pre rest) ≡ length rest
unfolding remaining seek
remaining-seek pre rest = omega (arith, length-append pre rest)

-- A call of one of the encoder's methods, or of the decoder's method of that name and its result.
pub data Item : Type 0 where
  u8 u16 u32 u64 : ℕ → Item
  bool : Bool → Item
  var text : List ℕ → Item

-- The range of the Go type; a slice's and a string's length fits the uint32 that is written for it, and
-- a string is valid UTF-8, since ReadString refuses others.
abbrev pub Fits : Item → Type 0
Fits (u8 v) = IsByte v
Fits (u16 v) = IsU16 v
Fits (u32 v) = IsU32 v
Fits (u64 v) = IsU64 v
Fits (bool v) = Unit
Fits (var b) = IsShort b
Fits (text s) = IsText s

pub write_item : Item → Encoder → Encoder
write_item (u8 v) e = write_u8 v e
write_item (u16 v) e = write_u16 v e
write_item (u32 v) e = write_u32 v e
write_item (u64 v) e = write_u64 v e
write_item (bool v) e = write_bool v e
write_item (var b) e = write_var_bytes b e
write_item (text s) e = write_string s e

pub read_item : Item → Reader Item
read_item (u8 _) = do v ← read_u8; pure (u8 v)
read_item (u16 _) = do v ← read_u16; pure (u16 v)
read_item (u32 _) = do v ← read_u32; pure (u32 v)
read_item (u64 _) = do v ← read_u64; pure (u64 v)
read_item (bool _) = do v ← read_bool; pure (bool v)
read_item (var _) = do b ← read_var_bytes; pure (var b)
read_item (text _) = do s ← read_string; pure (text s)

abbrev item_bytes : Item → List ℕ
item_bytes (u8 v) = v ∷ []
item_bytes (u16 v) = be_put 2 v
item_bytes (u32 v) = be_put 4 v
item_bytes (u64 v) = be_put 8 v
item_bytes (bool v) = bool_bytes v
item_bytes (var b) = var_bytes b
item_bytes (text s) = var_bytes s

write_item-bytes :
    (x : Item) (e : Encoder) → Fits x → bytes (write_item x e) ≡ bytes e ++ item_bytes x
unfolding write_item
write_item-bytes (u8 v) e h = bytes-write_u8 e v
write_item-bytes (u16 v) e h = bytes-write_u16 e v
write_item-bytes (u32 v) e h = bytes-write_u32 e v
write_item-bytes (u64 v) e h = bytes-write_u64 e v
write_item-bytes (bool v) e h = bytes-write_bool e v
write_item-bytes (var b) e h = rw (bytes-write_var_bytes e b, mod-eq_of_lt h.1)
write_item-bytes (text s) e h = rw (bytes-write_string e s, mod-eq_of_lt h.0.1)

read_item-seek :
    (x : Item) (pre rest : List ℕ)
    → Fits x
    → read_item x (seek pre (item_bytes x ++ rest)) ≡ (ok x, seek (pre ++ item_bytes x) rest)
unfolding read_item
read_item-seek (u8 v) pre rest h = rw (read_u8-IsCodec.complete v pre rest h)
read_item-seek (u16 v) pre rest h = rw (read_u16-IsCodec.complete v pre rest h)
read_item-seek (u32 v) pre rest h = rw (read_u32-IsCodec.complete v pre rest h)
read_item-seek (u64 v) pre rest h = rw (read_u64-IsCodec.complete v pre rest h)
read_item-seek (bool v) pre rest h = rw (read_bool-IsCodec.complete v pre rest tt)
read_item-seek (var b) pre rest h = rw (read_var_bytes-IsCodec.complete b pre rest h)
read_item-seek (text s) pre rest h = rw (read_string-IsCodec.complete s pre rest h)

pub write_all : List Item → Encoder → Encoder
write_all [] e = e
write_all (x ∷ xs) e = write_all xs (write_item x e)

pub read_all : List Item → Reader (List Item)
read_all [] = pure []
read_all (x ∷ xs) = do y ← read_item x; ys ← read_all xs; pure (y ∷ ys)

abbrev all_bytes : List Item → List ℕ
all_bytes [] = []
all_bytes (x ∷ xs) = item_bytes x ++ all_bytes xs

write_all-bytes :
    (xs : List Item) (e : Encoder) → All Fits xs → bytes (write_all xs e) ≡ bytes e ++ all_bytes xs
unfolding write_all
write_all-bytes [] e h = sym (append-nil (bytes e))
write_all-bytes (x ∷ xs) e (hx, hxs) =
    write_all-bytes xs (write_item x e) hxs
    ∙ rw (write_item-bytes x e hx, append_assoc (bytes e) (item_bytes x) (all_bytes xs))

read_all-seek :
    (xs : List Item) (pre rest : List ℕ)
    → All Fits xs
    → read_all xs (seek pre (all_bytes xs ++ rest)) ≡ (ok xs, seek (pre ++ all_bytes xs) rest)
unfolding read_all
read_all-seek [] pre rest h = rw (append-nil pre)
read_all-seek (x ∷ xs) pre rest (hx, hxs) = rw (
  append_assoc (item_bytes x) (all_bytes xs) rest,
  read_item-seek x pre (all_bytes xs ++ rest) hx,
  read_all-seek xs (pre ++ item_bytes x) rest hxs,
  append_assoc pre (item_bytes x) (all_bytes xs),
)

-- Whatever values are written one after the other, each number in the range of its Go type, each slice
-- and each string of a length below 2^32 and each string valid UTF-8, the decoder's methods called in
-- the same order return the same values without an error, and exactly the bytes appended behind them
-- remain unread.
pub read_all-write_all :
    (xs : List Item) (rest : List ℕ)
    → All Fits xs
    → ((read_all xs (new_decoder (bytes (write_all xs new_encoder) ++ rest))).0 ≡ ok xs)
      × (remaining (read_all xs (new_decoder (bytes (write_all xs new_encoder) ++ rest))).1
          ≡ length rest)
read_all-write_all xs rest h =
    rw
      (
        write_all-bytes xs new_encoder h,
        bytes-new_encoder,
        new_decoder-seek,
        read_all-seek xs [] rest h,
      )
      (refl, remaining-seek (all_bytes xs) rest)
