-- ===== src/Binary/Reads.antt =====
-- That a reader reads a value from given bytes, wherever they stand: one rule for each way in which a
-- reader is built.
use mathlib.Core.List.{append-nil, append_assoc}
use shadowlark_go.Base.{ℕ, ◌≡◌, List, [], ◌∷◌, ◌++◌, length, ok, IsByte, IsU16, IsU32, IsU64}
use shadowlark_go.Base.BigEndian.{be_put}
use shadowlark_go.Binary.{Decoder, Reader, pure, ◌>>=◌, new_decoder}
use shadowlark_go.Binary.{read_u8, read_u16, read_u32, read_u64, read_bytes}
use shadowlark_go.Binary.Codec.{seek}
use shadowlark_go.Binary.Primitives.{read_bytes_complete, read_u8-IsCodec, read_u16-IsCodec}
use shadowlark_go.Binary.Primitives.{read_u32-IsCodec, read_u64-IsCodec}
use shadowlark_go.Binary.Writers.{new_decoder-seek}

pub record Reads {A : Type 0} (read : Reader A) (a : A) (bs : List ℕ) : Type 0 where
  pub at : (pre rest : List ℕ) → read (seek pre (bs ++ rest)) ≡ (ok a, seek (pre ++ bs) rest)

module _ {A B : Type 0} where
  pub Reads-bind :
      (m : Reader A) (f : A → Reader B) (a : A) (b : B) (bs cs : List ℕ)
      → Reads m a bs
      → Reads (f a) b cs
      → Reads (m >>= f) b (bs ++ cs)
  Reads-bind m f a b bs cs hm hf = record {
    at = λ pre rest. rw (
      append_assoc bs cs rest,
      hm.at pre (cs ++ rest),
      hf.at (pre ++ bs) rest,
      append_assoc pre bs cs,
    );
  }

  -- The last field of a record
  pub Reads-map :
      (m : Reader A) (f : A → B) (a : A) (bs : List ℕ)
      → Reads m a bs
      → Reads (m >>= λ x. pure (f x)) (f a) bs
  Reads-map m f a bs hm = record { at = λ pre rest. rw (hm.at pre rest) }

  -- A step that reads nothing
  pub Reads-skip :
      (m : Reader A) (f : A → Reader B) (a : A) (b : B) (bs : List ℕ)
      → ((d : Decoder) → m d ≡ (ok a, d))
      → Reads (f a) b bs
      → Reads (m >>= f) b bs
  Reads-skip m f a b bs hm hf = record {
    at = λ pre rest. rw (hm (seek pre (bs ++ rest)), hf.at pre rest);
  }

pub Reads-pure : {A : Type 0} (a : A) → Reads (pure a) a []
Reads-pure a = record { at = λ pre rest. rw (append-nil pre) }

pub Reads-new_decoder :
    {A : Type 0} (read : Reader A) (a : A) (bs : List ℕ)
    → Reads read a bs
    → read (new_decoder bs) ≡ (ok a, seek bs [])
Reads-new_decoder read a bs h = rw new_decoder-seek (rw (append-nil bs) at (h.at [] []))

pub read_u8-Reads : (v : ℕ) → IsByte v → Reads read_u8 v (v ∷ [])
read_u8-Reads v h = record { at = λ pre rest. read_u8-IsCodec.complete v pre rest h }

pub read_u16-Reads : (v : ℕ) → IsU16 v → Reads read_u16 v (be_put 2 v)
read_u16-Reads v h = record { at = λ pre rest. read_u16-IsCodec.complete v pre rest h }

pub read_u32-Reads : (v : ℕ) → IsU32 v → Reads read_u32 v (be_put 4 v)
read_u32-Reads v h = record { at = λ pre rest. read_u32-IsCodec.complete v pre rest h }

pub read_u64-Reads : (v : ℕ) → IsU64 v → Reads read_u64 v (be_put 8 v)
read_u64-Reads v h = record { at = λ pre rest. read_u64-IsCodec.complete v pre rest h }

pub read_bytes-Reads : (n : ℕ) (bs : List ℕ) → length bs ≡ n → Reads (read_bytes n) bs bs
read_bytes-Reads n bs h = record { at = λ pre rest. rw (← h) (read_bytes_complete bs pre rest) }
