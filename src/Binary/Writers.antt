-- ===== src/Binary/Writers.antt =====
-- What each writer of encoder.go appends to the buffer.
use mathlib.Core.List.{append_assoc}
use shadowlark_go.Base.{ℕ, ◌%◌, ◌^◌, ◌≡◌, refl, Bool, true, false, List, [], ◌∷◌, ◌++◌, length}
use shadowlark_go.Base.{if◌then◌else◌}
use shadowlark_go.Base.BigEndian.{be_put}
use shadowlark_go.Binary.{Encoder, new_encoder, bytes, write_bytes, write_u8, write_bool, write_u16}
use shadowlark_go.Binary.{write_u32, write_u64, write_var_bytes, write_string, new_decoder}
use shadowlark_go.Binary.Codec.{seek}

pub bytes-new_encoder : bytes new_encoder ≡ []
unfolding bytes new_encoder
bytes-new_encoder = refl

pub new_decoder-seek : (bs : List ℕ) → new_decoder bs ≡ seek [] bs
unfolding new_decoder seek
new_decoder-seek bs = refl

module _ (e : Encoder) where
  pub bytes-write_bytes : (b : List ℕ) → bytes (write_bytes b e) ≡ bytes e ++ b
  unfolding bytes write_bytes
  bytes-write_bytes b = refl

  pub bytes-write_u8 : (v : ℕ) → bytes (write_u8 v e) ≡ bytes e ++ (v ∷ [])
  unfolding bytes write_u8
  bytes-write_u8 v = refl

  abbrev pub bool_byte : Bool → ℕ
  bool_byte v = if v then 1 else 0

  pub bytes-write_bool :
      (v : Bool) → bytes (write_bool v e) ≡ bytes e ++ ((if v then 1 else 0) ∷ [])
  unfolding bytes write_bool
  bytes-write_bool true = refl
  bytes-write_bool false = refl

  pub bytes-write_u16 : (v : ℕ) → bytes (write_u16 v e) ≡ bytes e ++ be_put 2 v
  unfolding bytes write_u16
  bytes-write_u16 v = refl

  pub bytes-write_u32 : (v : ℕ) → bytes (write_u32 v e) ≡ bytes e ++ be_put 4 v
  unfolding bytes write_u32
  bytes-write_u32 v = refl

  pub bytes-write_u64 : (v : ℕ) → bytes (write_u64 v e) ≡ bytes e ++ be_put 8 v
  unfolding bytes write_u64
  bytes-write_u64 v = refl

  pub bytes-write_var_bytes :
      (b : List ℕ) → bytes (write_var_bytes b e) ≡ bytes e ++ (be_put 4 (length b % 2 ^ 32) ++ b)
  unfolding bytes write_var_bytes
  bytes-write_var_bytes b = append_assoc e.buf (be_put 4 (length b % 2 ^ 32)) b

  pub bytes-write_string :
      (s : List ℕ) → bytes (write_string s e) ≡ bytes e ++ (be_put 4 (length s % 2 ^ 32) ++ s)
  unfolding write_string
  bytes-write_string s = bytes-write_var_bytes s

pub ruleset writers = (
  bytes-write_bytes, bytes-write_u8, bytes-write_u16, bytes-write_u32, bytes-write_u64,
  bytes-write_var_bytes, bytes-new_encoder,
)
