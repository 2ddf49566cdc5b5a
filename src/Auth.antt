-- ===== src/Auth.antt =====
-- gateway/auth.rs: challenge-response authentication. HMAC-SHA256 of the hmac and sha2 crates is
-- the parameter `Hmac`. The nonce of `generate_nonce` comes from the random number generator
-- and is an argument of what uses it.
pub mod Verify
use Prim.Native.Nat.{bit_or, bit_xor}
use iog.Prelude.{ℕ, ◌≡◌, Bool, false, not, List, [], ◌∷◌, if◌then◌else◌, ◌==◌, length, All}
use iog.Bytes.{IsByte}

abbrev pub nonce_size : ℕ
nonce_size = 32

abbrev pub response_size : ℕ
response_size = 32

-- The tag of a message under a key.
pub record Hmac : Type 0 where
  pub tag : List ℕ → List ℕ → List ℕ

-- A SHA-256 tag is an array of 32 bytes.
pub record HmacLaws (h : Hmac) : Type 0 where
  pub tag_length : (key message : List ℕ) → length (h.tag key message) ≡ response_size
  pub tag-IsByte : (key message : List ℕ) → All IsByte (h.tag key message)

-- The loop of `verify_response`: `result |= a ^ b` over the zipped slices.
unfoldable pub differences : ℕ → List ℕ → List ℕ → ℕ
differences result [] ys = result
differences result (x ∷ xs) [] = result
differences result (x ∷ xs) (y ∷ ys) = differences (bit_or result (bit_xor x y)) xs ys

module _ ⦃h : Hmac⦄ where
  unfoldable pub compute_response : List ℕ → List ℕ → List ℕ
  compute_response key nonce = h.tag key nonce

  unfoldable pub verify_response : List ℕ → List ℕ → List ℕ → Bool
  unfolding differences
  verify_response key nonce response =
      let expected = compute_response key nonce in
      if not (length response == response_size) then false else differences 0 expected response == 0
