-- ===== src/Transport.antt =====
-- What the program uses of tokio's TCP socket halves, as interfaces. The laws state the documented
-- behaviour of a stream; the program's theorems take them where they need them.
use iog.Prelude.{ℕ, ◌<◌, ◌≡◌, Bool, true, Option, none, some, List, ◌++◌, length}

-- `write_all` gives `true` for `Ok(())` and the new state of the half. `shutdown` returns a result
-- that the program drops.
pub record WriteHalf (W : Type 0) : Type 0 where
  pub write_all : W → List ℕ → Bool × W
  pub shutdown : W → W

-- `sent` is what has been handed to the peer so far.
pub record WriteLaws (W : Type 0) (io : WriteHalf W) : Type 0 where
  pub sent : W → List ℕ
  pub sent-write_all :
      (w : W) (d : List ℕ) → (io.write_all w d).0 ≡ true → sent (io.write_all w d).1 ≡ sent w ++ d
  pub sent-shutdown : (w : W) → sent (io.shutdown w) ≡ sent w

-- `read_exact` fills a buffer of the given size, or fails (`none`).
pub record ReadHalf (R : Type 0) : Type 0 where
  pub read_exact : R → ℕ → Option (List ℕ) × R

-- `pending` is what the peer sends and nobody has read yet, up to the end of the stream; a read
-- past the end fails.
pub record ReadLaws (R : Type 0) (io : ReadHalf R) : Type 0 where
  pub pending : R → List ℕ
  pub read_exact-pending :
      (r : R) (xs ys : List ℕ)
      → pending r ≡ xs ++ ys
      → ((io.read_exact r (length xs)).0 ≡ some xs) × (pending (io.read_exact r (length xs)).1 ≡ ys)
  pub read_exact_short : (r : R) (n : ℕ) → length (pending r) < n → (io.read_exact r n).0 ≡ none
