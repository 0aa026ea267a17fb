-- ===== src/Tcp/Environment.antt =====
-- The identity and the pinned keys from the environment (transport/tcp/client.go). A variable is its
-- bytes, empty where it is not set. The functions of the standard library are parameters.
use shadowlark_go.Base.{ℕ, ◌+◌, ◌%◌, ◌==◌, List, [], ◌∷◌, length, Bool, ◌&&◌, ◌||◌, not}
use shadowlark_go.Base.{Result, ok, err, Error, ◌>>=◌, if◌then◌else◌}
use shadowlark_go.Handshake.Keys.{
  Primitives, IdentityKeypair, TrustStore, fit, strict_trust_store, pin,
}
use shadowlark_go.Handshake.Keys.{identity_keypair_from_seeds}

-- `strings.TrimSpace`, `strings.Split` at commas, `hex.DecodeString` and `strconv.ParseUint`
pub record Library : Type 0 where
  pub trim_space : List ℕ → List ℕ
  pub split : List ℕ → List (List ℕ)
  pub decode_hex : List ℕ → Result (List ℕ)
  pub parse_uint : List ℕ → Result ℕ

-- What `os.Getenv` gives of the five variables
pub record Environment : Type 0 where
  pub ed25519_seed_hex : List ℕ
  pub x25519_private_hex : List ℕ
  pub key_id : List ℕ
  pub validity : List ℕ
  pub trust_pins : List ℕ

abbrev pub is_empty : List ℕ → Bool
is_empty bs = length bs == 0

module _ (lib : Library) where
  unfoldable pub parse_hex_bytes : List ℕ → Result (List ℕ)
  parse_hex_bytes value =
      if not (length value % 2 == 0) then err Error.odd_hex else lib.decode_hex value

  unfoldable pub parse_optional_uint64_env : List ℕ → Result ℕ
  parse_optional_uint64_env value =
      let raw = lib.trim_space value in if is_empty raw then ok 0 else lib.parse_uint raw

  unfoldable pub build_identity_from_env : Primitives → Environment → Result IdentityKeypair
  unfolding parse_hex_bytes
  build_identity_from_env prims env =
      let seed_hex = lib.trim_space env.ed25519_seed_hex in
      let private_hex = lib.trim_space env.x25519_private_hex in
      if is_empty seed_hex && is_empty private_hex
      then err Error.identity_unset
      else if is_empty seed_hex || is_empty private_hex
      then err Error.identity_half_set
      else do
        seed ← parse_hex_bytes seed_hex
        x_private ← parse_hex_bytes private_hex
        if not (length seed == 32)
            then err (Error.wrong_key_length (length seed))
            else if not (length x_private == 32)
            then err (Error.wrong_key_length (length x_private))
            else identity_keypair_from_seeds prims (fit 32 seed) (fit 32 x_private)

  -- One turn of the loop over the tokens, of the store and the number of pins before it. An error of the
  -- parser is wrapped.
  unfoldable pub pin_token : List ℕ → TrustStore → ℕ → Result (TrustStore × ℕ)
  unfolding parse_hex_bytes
  pin_token token trust pin_count =
      let pin_hex = lib.trim_space token in
      if is_empty pin_hex then ok (trust, pin_count) else do
        pin_bytes ← parse_hex_bytes pin_hex
        if not (length pin_bytes == 32)
            then err (Error.wrong_pin_length (length pin_bytes))
            else ok (pin (fit 32 pin_bytes) trust, pin_count + 1)

  unfoldable pub pin_tokens : List (List ℕ) → TrustStore → ℕ → Result (TrustStore × ℕ)
  unfolding pin_token
  pin_tokens [] trust pin_count = ok (trust, pin_count)
  pin_tokens (token ∷ tokens) trust pin_count = do
    (trust', pin_count') ← pin_token token trust pin_count
    pin_tokens tokens trust' pin_count'

  unfoldable pub build_trust_store_from_env : Environment → Result TrustStore
  unfolding pin_tokens
  build_trust_store_from_env env =
      let raw = lib.trim_space env.trust_pins in
      if is_empty raw then err Error.pins_unset else do
        (trust, pin_count) ← pin_tokens (lib.split raw) strict_trust_store 0
        if pin_count == 0 then err Error.no_pins else ok trust
