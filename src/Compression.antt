-- ===== src/Compression.antt =====
-- gateway/compression.rs: zstd compression of payloads of 1 KB and more. The zstd crate is the
-- parameter `Zstd`; what it documents is the hypothesis `ZstdLaws`.
pub mod RoundTrip
use iog.Prelude.{
  ℕ, ◌≡◌, ◌<◌, Bool, true, false, not, Option, none, some, List, if◌then◌else◌, ltb, length, All,
}
use iog.Bytes.{IsByte}

abbrev pub min_compress_size : ℕ
min_compress_size = 1024

abbrev pub compression_level : ℕ
compression_level = 3

-- `zstd::encode_all(data, level)` and `zstd::decode_all(data)`; `none` is an error.
pub record Zstd : Type 0 where
  pub encode_all : List ℕ → ℕ → Option (List ℕ)
  pub decode_all : List ℕ → Option (List ℕ)

-- What is encoded without an error is a frame, which is never empty and decodes to the same data.
pub record ZstdLaws (z : Zstd) : Type 0 where
  pub decode-encode :
      (d c : List ℕ) (level : ℕ) → z.encode_all d level ≡ some c → z.decode_all c ≡ some d
  pub encode_nonempty : (d c : List ℕ) (level : ℕ) → z.encode_all d level ≡ some c → 0 < length c

-- `bytes` is the source's `data`.
pub record CompressionResult : Type 0 where
  pub bytes : List ℕ
  pub is_compressed : Bool

module _ ⦃z : Zstd⦄ where
  unfoldable pub compress_data : List ℕ → CompressionResult
  compress_data d =
      if ltb (length d) min_compress_size
      then record { bytes = d; is_compressed = false }
      else elim (z.encode_all d compression_level) [
        | some compressed ↦
            if ltb (length compressed) (length d)
            then record { bytes = compressed; is_compressed = true }
            else record { bytes = d; is_compressed = false }
        | none ↦ record { bytes = d; is_compressed = false }
      ]

  unfoldable pub decompress_data : List ℕ → Bool → Option (List ℕ)
  decompress_data d is_compressed = if not is_compressed then some d else z.decode_all d
