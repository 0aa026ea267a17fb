-- ===== src/Crypto/Binding.antt =====
-- What a nonce and the additional data determine.
use shadowlark_go.Base.{
  ℕ, ◌≡◌, refl, sym, ap, ◌∙◌, arith, List, [], ◌∷◌, ◌++◌, length, take, IsByte,
}
use shadowlark_go.Base.{length-append, length-take, IsU32, IsU64, bit_or, append_cancel, ◌<◌, ◌^◌}
use shadowlark_go.Base.Bytes.{or_one_idem}
use shadowlark_go.Base.BigEndian.{be_put, be_get, be_get-be_put, length-be_put}
use shadowlark_go.Frame.{Frame}
use shadowlark_go.Crypto.{Suite, IsSuite, derive_nonce, nonce_digest, build_aad, flag_encrypted}

be_put_inj : (k v w : ℕ) → v < 256 ^ k → w < 256 ^ k → be_put k v ≡ be_put k w → v ≡ w
be_put_inj k v w hv hw e = sym (be_get-be_put k v hv) ∙ ap be_get e ∙ be_get-be_put k w hw

append_split_at :
    (xs bs cs ds : List ℕ) → length xs ≡ length bs → xs ++ cs ≡ bs ++ ds → (xs ≡ bs) × (cs ≡ ds)
append_split_at [] [] cs ds h e = (refl, e)
append_split_at [] (b ∷ bs) cs ds h e = absurd (omega arith)
append_split_at (a ∷ xs) [] cs ds h e = absurd (omega arith)
append_split_at (a ∷ xs) (b ∷ bs) cs ds h e =
    let (p, q) = append_split_at xs bs cs ds (omega arith) (cc) in (cc, q)

-- Under one key, session and direction, two uint64 sequence numbers with the same nonce are equal.
pub derive_nonce-injective :
    (suite : Suite) (session_id : ℕ) (key : List ℕ) (direction s t : ℕ)
    → IsU64 s
    → IsU64 t
    → derive_nonce suite session_id key direction s ≡ derive_nonce suite session_id key direction t
    → s ≡ t
unfolding derive_nonce
derive_nonce-injective suite session_id key direction s t hs ht e =
    be_put_inj 8 s t hs ht (append_cancel (take 4 (nonce_digest suite session_id key direction)) e)

-- The receiver computes from the encrypted frame the additional data that the sender computed from
-- the plain one: the payload and the encryption flag do not enter it.
pub build_aad-encrypted :
    (f : Frame) (payload : List ℕ) (epoch sequence : ℕ)
    → IsByte f.flags
    → build_aad
        (record f { flags = bit_or f.flags flag_encrypted; payload = payload })
        epoch
        sequence
      ≡ build_aad f epoch sequence
unfolding build_aad
build_aad-encrypted f payload epoch sequence h = rw (or_one_idem f.flags h)

abbrev counters : ℕ → ℕ → List ℕ
counters epoch sequence = be_put 4 epoch ++ (be_put 8 sequence ++ (0 ∷ []))

counters-injective :
    (epoch epoch' sequence sequence' : ℕ)
    → IsU32 epoch
    → IsU32 epoch'
    → IsU64 sequence
    → IsU64 sequence'
    → counters epoch sequence ≡ counters epoch' sequence'
    → (epoch ≡ epoch') × (sequence ≡ sequence')
counters-injective epoch epoch' sequence sequence' he he' hs hs' e =
    let p =
      append_split_at (be_put 4 epoch) (be_put 4 epoch') (be_put 8 sequence ++ (0 ∷ []))
        (be_put 8 sequence' ++ (0 ∷ [])) (length-be_put 4 epoch ∙ sym (length-be_put 4 epoch')) e in
    let q =
      append_split_at (be_put 8 sequence) (be_put 8 sequence') (0 ∷ []) (0 ∷ [])
        (length-be_put 8 sequence ∙ sym (length-be_put 8 sequence')) p.1 in
    (be_put_inj 4 _ _ he he' p.0, be_put_inj 8 _ _ hs hs' q.0)

-- The additional data determine the version, the type, the flags but for the encryption flag, the
-- 32-bit epoch and the 64-bit sequence number.
pub build_aad-injective :
    (f g : Frame) (epoch epoch' sequence sequence' : ℕ)
    → IsU32 epoch
    → IsU32 epoch'
    → IsU64 sequence
    → IsU64 sequence'
    → build_aad f epoch sequence ≡ build_aad g epoch' sequence'
    → (f.version ≡ g.version)
      × (f.msg_type ≡ g.msg_type)
      × (bit_or f.flags flag_encrypted ≡ bit_or g.flags flag_encrypted)
      × (epoch ≡ epoch')
      × (sequence ≡ sequence')
unfolding build_aad
build_aad-injective f g epoch epoch' sequence sequence' he he' hs hs' e =
    let h : (f.version ≡ g.version)
        × (f.msg_type ≡ g.msg_type)
        × (bit_or f.flags flag_encrypted ≡ bit_or g.flags flag_encrypted)
        × (counters epoch sequence ≡ counters epoch' sequence') =
      ground arith in
    let (p, q) = counters-injective epoch epoch' sequence sequence' he he' hs hs' h.3 in
    (h.0, h.1, h.2, p, q)

pub build_aad-header :
    (f g : Frame) (epoch sequence : ℕ)
    → IsByte f.flags
    → g.version ≡ f.version
    → g.msg_type ≡ f.msg_type
    → g.flags ≡ bit_or f.flags flag_encrypted
    → build_aad g epoch sequence ≡ build_aad f epoch sequence
unfolding build_aad
build_aad-header f g epoch sequence h v t flags = rw (v, t, flags, or_one_idem f.flags h)

-- A nonce has 12 bytes.
pub length-derive_nonce :
    (suite : Suite) (session_id : ℕ) (key : List ℕ) (direction sequence : ℕ)
    → IsSuite suite
    → length (derive_nonce suite session_id key direction sequence) ≡ 12
unfolding derive_nonce nonce_digest
length-derive_nonce suite session_id key direction sequence laws =
    simp (length-append, length-take, length-be_put, laws.digest_length) (omega arith)
