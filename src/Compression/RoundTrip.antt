-- ===== src/Compression/RoundTrip.antt =====
-- What `compress_data` gives, on every branch.
use iog.Prelude.{ℕ, ◌≤◌, ◌<◌, ◌≡◌, true, false, some, List, arith, length, inl, inr, Option-cases}
use iog.Compression.{
  Zstd, ZstdLaws, compression_level, compress_data, decompress_data, min_compress_size,
}

module _ ⦃z : Zstd⦄ where
  -- Decompressing what `compress_data` returned, with the flag that it returned, gives the data
  -- back, for a codec that decodes what it encodes.
  pub decompress_data-compress_data :
      (laws : ZstdLaws z) (d : List ℕ)
      → decompress_data (compress_data d).bytes (compress_data d).is_compressed ≡ some d
  unfolding compress_data decompress_data
  decompress_data-compress_data laws d = elim (Option-cases (z.encode_all d compression_level)) [
    | inl e ↦ ground arith
    | inr (c, e) ↦ ground (arith, laws.decode-encode d c compression_level)
  ]

  -- The result is never longer than the data; it is flagged only if it is strictly shorter and
  -- the data has 1 KB or more; and if it is not flagged, it is the data.
  pub compress_data-length :
      (d : List ℕ)
      → (length (compress_data d).bytes ≤ length d)
        × ((compress_data d).is_compressed ≡ true
            → (length (compress_data d).bytes < length d) × (min_compress_size ≤ length d))
        × ((compress_data d).is_compressed ≡ false → (compress_data d).bytes ≡ d)
  unfolding compress_data
  compress_data-length d = (ground arith, λ h. (ground arith, ground arith), λ h. ground arith)

  -- A compressed result is not empty.
  pub compress_data_nonempty :
      (laws : ZstdLaws z) (d : List ℕ)
      → (compress_data d).is_compressed ≡ true
      → 0 < length (compress_data d).bytes
  unfolding compress_data
  compress_data_nonempty laws d h = elim (Option-cases (z.encode_all d compression_level)) [
    | inl e ↦ ground arith
    | inr (c, e) ↦ ground (arith, laws.encode_nonempty d c compression_level)
  ]
