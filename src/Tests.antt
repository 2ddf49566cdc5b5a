-- ===== src/Tests.antt =====
-- Concrete streams, codec, tags and gateways, on which the theorems are applied to examples.
pub mod Wire
pub mod Sides
pub mod History
pub mod Shared
pub mod Locks
pub mod Figures
pub mod Lives
pub mod Parts
use iog.Prelude.{
  ℕ, zero, suc, ◌+◌, ◌%◌, ◌≤◌, ◌<◌, ◌≡◌, refl, sym, ap, ◌∙◌, Bool, true, false, ◌&&◌, Option, none,
  some, List, [], ◌∷◌, ◌++◌, arith, if◌then◌else◌, ◌==◌, leb, length, take, drop, replicate, All,
  nat_eq, length-replicate,
}
use iog.Bytes.{IsByte}
use iog.Transport.{WriteHalf, WriteLaws, ReadHalf, ReadLaws}
use iog.Compression.{Zstd, ZstdLaws}
use iog.Auth.{Hmac, HmacLaws, response_size}
use iog.Statistics.{Timestamp, pos}
use iog.Configuration.{Configuration, codes}
use iog.Metrics.{Metrics}
use iog.BufferPool
use iog.Gateway
use iog.Gateway.{Gateway}

-- A writer that keeps what was written, and a reader that holds what is to come.
instance abbrev pub writing : WriteHalf (List ℕ)
writing = record { write_all = λ w d. (true, w ++ d); shutdown = λ w. w }

abbrev pub writing_laws : WriteLaws (List ℕ) writing
writing_laws = record { sent = λ w. w; sent-write_all = λ w d ok. refl; sent-shutdown = λ w. refl }

abbrev pub read_from : List ℕ → ℕ → Option (List ℕ) × List ℕ
read_from r n = if leb n (length r) then (some (take n r), drop n r) else (none, r)

instance abbrev pub reading : ReadHalf (List ℕ)
reading = record { read_exact = read_from }

take-++ : (xs ys : List ℕ) → take (length xs) (xs ++ ys) ≡ xs
take-++ [] ys = refl
take-++ (x ∷ xs) ys = ap (λ l. x ∷ l) (take-++ xs ys)

drop-++ : (xs ys : List ℕ) → drop (length xs) (xs ++ ys) ≡ ys
drop-++ [] ys = refl
drop-++ (x ∷ xs) ys = drop-++ xs ys

fits-++ : (xs ys : List ℕ) → leb (length xs) (length (xs ++ ys)) ≡ true
fits-++ [] ys = ground arith
fits-++ (x ∷ xs) ys = ground (arith, fits-++ xs ys)

pub read_from-pending :
    (r xs ys : List ℕ)
    → r ≡ xs ++ ys
    → ((read_from r (length xs)).0 ≡ some xs) × ((read_from r (length xs)).1 ≡ ys)
read_from-pending r xs ys e = rw (e, fits-++ xs ys) (ap some (take-++ xs ys), drop-++ xs ys)

pub read_from_short : (r : List ℕ) (n : ℕ) → length r < n → (read_from r n).0 ≡ none
read_from_short r n h = ground arith

abbrev pub reading_laws : ReadLaws (List ℕ) reading
reading_laws = record {
  pending = λ r. r;
  read_exact-pending = read_from-pending;
  read_exact_short = read_from_short;
}

-- A codec for zeros: a frame is their number.
abbrev pub is_zeros : List ℕ → Bool
is_zeros [] = true
is_zeros (x ∷ xs) = x == 0 && is_zeros xs

abbrev pub encode_zeros : List ℕ → ℕ → Option (List ℕ)
encode_zeros d level = if is_zeros d then some (length d ∷ []) else none

abbrev pub decode_zeros : List ℕ → Option (List ℕ)
decode_zeros [] = none
decode_zeros (n ∷ []) = some (replicate n 0)
decode_zeros (n ∷ m ∷ c) = none

instance abbrev pub counting : Zstd
counting = record { encode_all = encode_zeros; decode_all = decode_zeros }

replicate-is_zeros : (d : List ℕ) → is_zeros d ≡ true → replicate (length d) 0 ≡ d
replicate-is_zeros [] h = refl
replicate-is_zeros (x ∷ d) h = ground (arith, replicate-is_zeros d)

pub decode_zeros-encode_zeros :
    (d c : List ℕ) (level : ℕ) → encode_zeros d level ≡ some c → decode_zeros c ≡ some d
decode_zeros-encode_zeros d c level e = ground (arith, replicate-is_zeros d)

pub encode_zeros_nonempty :
    (d c : List ℕ) (level : ℕ) → encode_zeros d level ≡ some c → 0 < length c
encode_zeros_nonempty d c level e = ground arith

abbrev pub counting_laws : ZstdLaws counting
counting_laws = record {
  decode-encode = decode_zeros-encode_zeros;
  encode_nonempty = encode_zeros_nonempty;
}

-- A checksum in place of the HMAC.
abbrev pub sum : List ℕ → ℕ
sum [] = 0
sum (x ∷ xs) = x + sum xs

abbrev pub checksum : List ℕ → List ℕ → List ℕ
checksum key message = replicate response_size ((sum key + sum message) % 256)

instance abbrev pub summing : Hmac
summing = record { tag = checksum }

pub replicate-IsByte : (n b : ℕ) → b < 256 → All IsByte (replicate n b)
replicate-IsByte zero b h = tt
replicate-IsByte (suc n) b h = (h, replicate-IsByte n b h)

pub checksum-IsByte : (key message : List ℕ) → All IsByte (checksum key message)
checksum-IsByte key message =
    replicate-IsByte response_size ((sum key + sum message) % 256) (omega arith)

pub checksum-length : (key message : List ℕ) → length (checksum key message) ≡ response_size
checksum-length key message = length-replicate response_size ((sum key + sum message) % 256)

abbrev pub summing_laws : HmacLaws summing
summing_laws = record { tag_length = checksum-length; tag-IsByte = checksum-IsByte }

-- A gateway in server mode, its metrics on.
abbrev pub config : Configuration
config = record {
  general = record { mode = codes "Server"; key = 1 ∷ 2 ∷ [] };
  network = record {
    port_gw = 9000;
    port_app = 8080;
    host_app = [];
    host_gw = [];
    port_metrics = 0;
  };
}

abbrev pub metrics_on : Metrics
metrics_on = record { initialized = true; calls = [] }

abbrev pub gateway : Gateway (List ℕ)
gateway = Gateway.new config (pos 0) metrics_on (BufferPool.new 1 16)
