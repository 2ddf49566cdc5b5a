-- ===== src/Relay/Pipe.antt =====
-- What a connection is for: a pipe. The contract that the forwarding loop of one side and the
-- exchange loop of the other keep together.
use iog.Prelude.{ℕ, Bool, false, Option, none, some, List, [], ◌∷◌, ◌++◌, if◌then◌else◌}

-- The bytes that came out, and whether it is open.
pub record Pipe : Type 0 where
  pub bytes : List ℕ
  pub is_open : Bool

-- A read of the source: its bytes come out, unless it is the end (no bytes) or an error (`none`),
-- which close the pipe for good.
unfoldable pub feed : Pipe → Option (List ℕ) → Pipe
feed p none = record p { is_open = false }
feed p (some []) = record p { is_open = false }
feed p (some (b ∷ bs)) = if p.is_open then record p { bytes = p.bytes ++ (b ∷ bs) } else p

unfoldable pub feed_all : Pipe → List (Option (List ℕ)) → Pipe
feed_all p [] = p
feed_all p (x ∷ xs) = feed_all (feed p x) xs
