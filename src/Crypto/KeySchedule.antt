-- ===== src/Crypto/KeySchedule.antt =====
-- The keys that the key schedule makes.
use Prim.Native.Nat.{min}
use shadowlark_go.Base.{ℕ, ◌≡◌, ap, ◌∙◌, List, length, length-take}
use shadowlark_go.Crypto.{Suite, IsSuite, rekey_material}

module _ (suite : Suite) (laws : IsSuite suite) (key : List ℕ) (session_id direction : ℕ) where
  pub length-rekey_material : length (rekey_material suite key session_id direction) ≡ 32
  unfolding rekey_material
  length-rekey_material = length-take 32 _ ∙ ap (min 32) (laws.digest_length _)
