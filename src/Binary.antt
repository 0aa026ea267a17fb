-- ===== src/Binary.antt =====
-- Package binary (binary/encoder.go, binary/decoder.go): primitive values in big-endian order.
-- A byte slice is a list of numbers; an encoder and a decoder are states that each method returns
-- anew. Lengths are Go's 64-bit `int`, so that `d.pos + n` cannot wrap.
use shadowlark_go.Base.{ℕ, zero, suc, ◌+◌, ◌-◌, ◌%◌, ◌^◌, ◌≡◌, Bool, true, false, ◌==◌, ltb}
use shadowlark_go.Base.{List, [], ◌∷◌, ◌++◌, length, take, drop, if◌then◌else◌, Result, ok, err}
use shadowlark_go.Base.{panic, Error}
use shadowlark_go.Base.BigEndian.{be_put, be_get}
pub mod Utf8
pub mod Codec
pub mod Primitives
pub mod Writers
pub mod RoundTrip
pub mod Reads
pub mod Total
use Utf8.{valid}

pub record Encoder : Type 0 where
  pub buf : List ℕ

pub new_encoder : Encoder
new_encoder = record { buf = [] }

pub write_bytes : List ℕ → Encoder → Encoder
write_bytes b e = record e { buf = e.buf ++ b }

pub write_u8 : ℕ → Encoder → Encoder
unfolding write_bytes
write_u8 v e = write_bytes (v ∷ []) e

pub write_bool : Bool → Encoder → Encoder
unfolding write_u8
write_bool v e = if v then write_u8 1 e else write_u8 0 e

pub write_u16 : ℕ → Encoder → Encoder
unfolding write_bytes
write_u16 v e = write_bytes (be_put 2 v) e

pub write_u32 : ℕ → Encoder → Encoder
unfolding write_bytes
write_u32 v e = write_bytes (be_put 4 v) e

pub write_u64 : ℕ → Encoder → Encoder
unfolding write_bytes
write_u64 v e = write_bytes (be_put 8 v) e

-- `uint32(len(b))` wraps.
pub write_var_bytes : List ℕ → Encoder → Encoder
unfolding write_bytes write_u32
write_var_bytes b e = write_bytes b (write_u32 (length b % 2 ^ 32) e)

-- A Go string is its bytes.
pub write_string : List ℕ → Encoder → Encoder
unfolding write_var_bytes
write_string s e = write_var_bytes s e

pub bytes : Encoder → List ℕ
bytes e = e.buf

pub record Decoder : Type 0 where
  pub buf : List ℕ
  pub pos : ℕ

pub new_decoder : List ℕ → Decoder
new_decoder buf = record { buf = buf; pos = 0 }

-- A method of the decoder: what it read before an error stays read.
abbrev pub Reader {ℓ} : Type ℓ → Type ℓ
Reader A = Decoder → Result A × Decoder

module _ {ℓ} {A : Type ℓ} where
  abbrev pub pure : A → Reader A
  pure a d = (ok a, d)

  abbrev pub fail : Error → Reader A
  fail e d = (err e, d)

module _ {ℓ κ} {A : Type ℓ} {B : Type κ} where
  abbrev pub continue : Result A → (A → Reader B) → Reader B
  continue (ok a) f d = f a d
  continue (err e) f d = (err e, d)
  continue panic f d = (panic, d)

  infixl 5 ◌>>=◌
  abbrev pub ◌>>=◌ : Reader A → (A → Reader B) → Reader B
  ◌>>=◌ m f d = let (r, d') = m d in continue r f d'

infixl 5 ◌>>◌
abbrev pub ◌>>◌ {ℓ κ} : {A : Type ℓ} {B : Type κ} → Reader A → Reader B → Reader B
m >> k = m >>= λ _. k

-- `d.buf[d.pos : d.pos+n]` is in range after the test.
pub read_exact : ℕ → Reader (List ℕ)
read_exact n d =
    if ltb (length d.buf) (d.pos + n)
    then (err Error.buffer_underflow, d)
    else (ok (take n (drop d.pos d.buf)), record d { pos = d.pos + n })

-- `b[0]`
first : List ℕ → Reader ℕ
first [] d = (panic, d)
first (b ∷ bs) d = (ok b, d)

pub read_u8 : Reader ℕ
read_u8 = do b ← read_exact 1; first b

bool_of : ℕ → Reader Bool
bool_of b = if b == 0 then pure false else if b == 1 then pure true else fail Error.invalid_bool

pub read_bool : Reader Bool
read_bool = do b ← read_u8; bool_of b

pub read_u16 : Reader ℕ
read_u16 = do b ← read_exact 2; pure (be_get b)

pub read_u32 : Reader ℕ
read_u32 = do b ← read_exact 4; pure (be_get b)

pub read_u64 : Reader ℕ
read_u64 = do b ← read_exact 8; pure (be_get b)

pub read_bytes : ℕ → Reader (List ℕ)
read_bytes n = read_exact n

pub read_var_bytes : Reader (List ℕ)
read_var_bytes = do l ← read_u32; read_exact l

pub read_string : Reader (List ℕ)
read_string = do b ← read_var_bytes; if valid b then pure b else fail Error.invalid_utf8

-- `readExact` never moves the position past the end, so that Go's difference is not negative.
pub remaining : Decoder → ℕ
remaining d = length d.buf - d.pos
