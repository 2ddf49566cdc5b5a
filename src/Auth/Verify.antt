-- ===== src/Auth/Verify.antt =====
-- The constant-time comparison decides equality.
use Prim.Native.Nat.{bit_or, bit_xor}
use iog.Prelude.{
  ℕ, ◌<◌, ◌≡◌, refl, ◌↔◌, Bool, true, false, not, ◌&&◌, List, [], ◌∷◌, arith, ◌==◌, ltb, length,
  All,
}
use iog.Prelude.Tables.{all_below, all_below-apply}
use iog.Bytes.{IsByte}
use iog.Auth.{Hmac, HmacLaws, differences, compute_response, verify_response}

abbrev same : Bool → Bool → Bool
same true b = b
same false b = not b

abbrev pair_test : ℕ → ℕ → Bool
pair_test a b =
    ltb (bit_or a b) 256
    && ltb (bit_xor a b) 256
    && same (bit_or a b == 0) ((a == 0) && (b == 0))
    && same (bit_xor a b == 0) (a == b)

pair_table : all_below 256 (λ a. all_below 256 (λ b. pair_test a b)) ≡ true
unfolding all_below
pair_table = refl

pair_test-true : (a b : ℕ) → a < 256 → b < 256 → pair_test a b ≡ true
pair_test-true a b h k =
    all_below-apply 256 (λ y. pair_test a y) b
      (all_below-apply 256 (λ x. all_below 256 (λ y. pair_test x y)) a pair_table h) k

-- The loop ends in 0 exactly if it starts there and the two slices, of one length, agree.
differences-eq-zero :
    (result : ℕ) (xs ys : List ℕ)
    → result < 256
    → All IsByte xs
    → All IsByte ys
    → length xs ≡ length ys
    → (differences result xs ys ≡ 0) ↔ ((result ≡ 0) × (xs ≡ ys))
unfolding differences
differences-eq-zero result [] [] h hx hy e = ground arith
differences-eq-zero result [] (y ∷ ys) h hx hy e = absurd (omega arith)
differences-eq-zero result (x ∷ xs) [] h hx hy e = absurd (omega arith)
differences-eq-zero result (x ∷ xs) (y ∷ ys) h hx hy e = ground (
  arith,
  pair_test-true x y hx.0 hy.0,
  pair_test-true result (bit_xor x y) h,
  differences-eq-zero (bit_or result (bit_xor x y)) xs ys,
)

-- A response is accepted exactly if it is the HMAC tag of the nonce under the key: on bytes, and
-- with tags of 32 bytes, whatever the length of the response.
pub verify_response_iff :
    ⦃h : Hmac⦄ (laws : HmacLaws h) (key nonce response : List ℕ)
    → All IsByte response
    → (verify_response key nonce response ≡ true) ↔ (response ≡ compute_response key nonce)
unfolding verify_response compute_response
verify_response_iff ⦃h⦄ laws key nonce response bytes = ground (
  arith,
  laws.tag_length key nonce,
  differences-eq-zero 0 (h.tag key nonce) response (omega arith) (laws.tag-IsByte key nonce) bytes,
)
