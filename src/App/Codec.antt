-- ===== src/App/Codec.antt =====
-- The bytes of a message, an acknowledgement and a chunk, and the readers that accept them.
use mathlib.Core.List.{append-nil, append_assoc}
use native.Mathlib.Nat.{mod-eq_of_lt}
use shadowlark_go.Base.{ℕ, ◌^◌, ◌<◌, ◌≤◌, ◌≡◌, refl, arith, List, [], ◌++◌, length, All, IsByte}
use shadowlark_go.Base.{IsU16, IsU32, Error, ltb, Bool, if◌then◌else◌}
use shadowlark_go.Base.BigEndian.{be_put}
use shadowlark_go.Binary.{Encoder, bytes, pure, fail, ◌>>=◌, read_u32, read_bytes}
use shadowlark_go.Binary.Codec.{IsCodec, bind-IsCodec, pure-IsCodec, guard-IsCodec, IsCodec_cong}
use shadowlark_go.Binary.Primitives.{read_bytes-IsCodec, read_u16-IsCodec, read_u32-IsCodec}
use shadowlark_go.Binary.Writers.{writers}
use shadowlark_go.App.{Message, encode, decode, max_app_payload, Ack, read_ack, Chunk, read_chunk}
use shadowlark_go.App.{write_chunk}

-- A message whose fields are in the range of their Go types, with a payload within the limit
pub record IsWire (m : Message) : Type 0 where
  pub channel_range : IsU32 m.channel_id
  pub seq_range : IsU32 m.seq
  pub type_range : IsU16 m.msg_type
  pub payload_bytes : All IsByte m.payload
  pub payload_fits : length m.payload ≤ max_app_payload

abbrev pub message_bytes : Message → List ℕ
message_bytes m =
    be_put 4 m.channel_id
    ++ (be_put 4 m.seq ++ (be_put 2 m.msg_type ++ (be_put 4 (length m.payload) ++ m.payload)))

pub bytes-encode :
    (m : Message) (e : Encoder)
    → length m.payload ≤ max_app_payload
    → bytes (encode m e) ≡ bytes e ++ message_bytes m
unfolding encode
bytes-encode m e h =
    let short : length m.payload < 2 ^ 32 = omega arith in
    simp (writers, append_assoc) (rw (mod-eq_of_lt short))

-- What is known of the message once its first fields are read
abbrev OnChannel : ℕ → Message → Type 0
OnChannel c m = IsWire m × (m.channel_id ≡ c)

abbrev WithSeq : ℕ → ℕ → Message → Type 0
WithSeq c s m = OnChannel c m × (m.seq ≡ s)

abbrev WithType : ℕ → ℕ → ℕ → Message → Type 0
WithType c s t m = WithSeq c s m × (m.msg_type ≡ t)

abbrev WithLength : ℕ → ℕ → ℕ → ℕ → Message → Type 0
WithLength c s t n m = WithType c s t m × (length m.payload ≡ n)

module _ (c s t : ℕ) (hc : IsU32 c) (hs : IsU32 s) (ht : IsU16 t) where
  abbrev with_payload : List ℕ → Message
  with_payload payload = record { channel_id = c; seq = s; msg_type = t; payload = payload }

  payload-IsCodec :
      (n : ℕ)
      → n ≤ max_app_payload
      → IsCodec
          (read_bytes n >>= λ payload. pure (with_payload payload))
          (λ m. m.payload)
          (WithLength c s t n)
  payload-IsCodec n hn =
      IsCodec_cong _ _ _ _ _ (λ m. append-nil m.payload) (λ m h. h) (λ m h. h)
        (bind-IsCodec _ _ _ _ (λ m. m.payload) (λ m. []) (WithLength c s t n) (read_bytes-IsCodec n)
          (λ payload g.
            pure-IsCodec _ (with_payload payload)
              (
                (
                  (
                    (
                      (
                        record {
                          channel_range = hc;
                          seq_range = hs;
                          type_range = ht;
                          payload_bytes = g.0;
                          payload_fits = rw g.1 hn;
                        },
                        refl,
                      ),
                      refl,
                    ),
                    refl,
                  ),
                  g.1,
                ),
                refl,
              )
              (λ m k. ground arith))
          (λ m h. (h.0.0.0.0.payload_bytes, h.1)))

  length-IsCodec :
      IsCodec
        (read_u32 >>= λ n.
          if ltb max_app_payload n
          then fail Error.app_payload_too_large
          else do payload ← read_bytes n; pure (with_payload payload))
        (λ m. be_put 4 (length m.payload) ++ m.payload)
        (WithType c s t)
  length-IsCodec =
      bind-IsCodec _ _ _ _ (λ m. length m.payload) (λ m. m.payload) (WithType c s t)
        read_u32-IsCodec
        (λ n hn.
          guard-IsCodec _ _ _ Error.app_payload_too_large _
            (λ over m h. ground (arith, h.0.0.0.0.payload_fits))
            (λ fits. payload-IsCodec n (ground arith)))
        (λ m h. ground (arith, h.0.0.0.payload_fits))

pub decode-IsCodec : IsCodec decode message_bytes IsWire
unfolding decode
decode-IsCodec =
    bind-IsCodec _ _ _ _ (λ m. m.channel_id) _ IsWire read_u32-IsCodec
      (λ c hc.
        bind-IsCodec _ _ _ _ (λ m. m.seq) _ (OnChannel c) read_u32-IsCodec
          (λ s hs.
            bind-IsCodec _ _ _ _ (λ m. m.msg_type) _ (WithSeq c s) read_u16-IsCodec
              (λ t ht. length-IsCodec c s t hc hs ht) (λ m h. h.0.0.type_range))
          (λ m h. h.0.seq_range))
      (λ m h. h.channel_range)

abbrev AckOf : ℕ → Bool → Ack → Type 0
AckOf c nak a = (IsU32 a.acked_seq × (a.channel_id ≡ c)) × (a.is_nak ≡ nak)

pub read_ack-IsCodec :
    (c : ℕ) (nak : Bool) → IsCodec (read_ack c nak) (λ a. be_put 4 a.acked_seq) (AckOf c nak)
unfolding read_ack
read_ack-IsCodec c nak =
    IsCodec_cong _ _ _ _ _ (λ a. append-nil (be_put 4 a.acked_seq)) (λ a h. h) (λ a h. h)
      (bind-IsCodec _ _ _ _ (λ a. a.acked_seq) (λ a. []) (AckOf c nak) read_u32-IsCodec
        (λ n hn.
          pure-IsCodec _ (record { channel_id = c; acked_seq = n; is_nak = nak })
            (((hn, refl), refl), refl) (λ a k. ground arith))
        (λ a h. h.0.0))

abbrev pub chunk_bytes : Chunk → List ℕ
chunk_bytes c =
    be_put 4 c.chunk_index ++ (be_put 4 c.chunk_total ++ (be_put 4 (length c.payload) ++ c.payload))

-- A chunk whose fields are in the range of their Go types
pub record IsWireChunk (c : Chunk) : Type 0 where
  pub index_range : IsU32 c.chunk_index
  pub total_range : IsU32 c.chunk_total
  pub payload_bytes : All IsByte c.payload
  pub length_range : IsU32 (length c.payload)

pub bytes-write_chunk :
    (c : Chunk) (e : Encoder)
    → IsU32 (length c.payload)
    → bytes (write_chunk c e) ≡ bytes e ++ chunk_bytes c
unfolding write_chunk
bytes-write_chunk c e h = simp (writers, append_assoc) (rw (mod-eq_of_lt h))

abbrev ChunkOf : ℕ → ℕ → Chunk → Type 0
ChunkOf channel_id seq c = (IsWireChunk c × (c.channel_id ≡ channel_id)) × (c.seq ≡ seq)

abbrev ChunkAt : ℕ → ℕ → ℕ → Chunk → Type 0
ChunkAt channel_id seq i c = ChunkOf channel_id seq c × (c.chunk_index ≡ i)

abbrev ChunkIn : ℕ → ℕ → ℕ → ℕ → Chunk → Type 0
ChunkIn channel_id seq i total c = ChunkAt channel_id seq i c × (c.chunk_total ≡ total)

abbrev ChunkLong : ℕ → ℕ → ℕ → ℕ → ℕ → Chunk → Type 0
ChunkLong channel_id seq i total n c = ChunkIn channel_id seq i total c × (length c.payload ≡ n)

abbrev chunk_of : ℕ → ℕ → ℕ → ℕ → List ℕ → Chunk
chunk_of channel_id seq i total payload = record {
  channel_id = channel_id;
  seq = seq;
  chunk_index = i;
  chunk_total = total;
  payload = payload;
}

pub read_chunk-IsCodec :
    (channel_id seq : ℕ) → IsCodec (read_chunk channel_id seq) chunk_bytes (ChunkOf channel_id seq)
unfolding read_chunk
read_chunk-IsCodec channel_id seq =
    bind-IsCodec _ _ _ _ (λ c. c.chunk_index) _ (ChunkOf channel_id seq) read_u32-IsCodec
      (λ i hi.
        bind-IsCodec _ _ _ _ (λ c. c.chunk_total) _ (ChunkAt channel_id seq i) read_u32-IsCodec
          (λ total ht.
            bind-IsCodec _ _ _ _ (λ c. length c.payload) _ (ChunkIn channel_id seq i total)
              read_u32-IsCodec
              (λ n hn.
                IsCodec_cong _ _ _ _ _ (λ c. append-nil c.payload) (λ c h. h) (λ c h. h)
                  (bind-IsCodec _ _ _ _ (λ c. c.payload) (λ c. [])
                    (ChunkLong channel_id seq i total n) (read_bytes-IsCodec n)
                    (λ payload g.
                      pure-IsCodec _ (chunk_of channel_id seq i total payload)
                        (
                          (
                            (
                              (
                                (
                                  (
                                    record {
                                      index_range = hi;
                                      total_range = ht;
                                      payload_bytes = g.0;
                                      length_range = rw g.1 hn;
                                    },
                                    refl,
                                  ),
                                  refl,
                                ),
                                refl,
                              ),
                              refl,
                            ),
                            g.1,
                          ),
                          refl,
                        )
                        (λ c k. ground arith))
                    (λ c h. (h.0.0.0.0.0.payload_bytes, h.1))))
              (λ c h. h.0.0.0.0.length_range))
          (λ c h. h.0.0.0.total_range))
      (λ c h. h.0.0.index_range)
