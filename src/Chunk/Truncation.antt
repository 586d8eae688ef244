-- ===== src/Chunk/Truncation.antt =====
-- Reading from a stream of chunks that is cut off (internal/chunk/chunk.go).
use litefs.Prelude.{ℕ, suc, ◌≡◌, ◌<◌, ◌≤◌, List, [], ◌∷◌, ◌++◌, length, Bool, true, false, be16}
use litefs.Reading.{Read, got, unexpected_eof, read_full}
use litefs.Chunk.{Reader, next_chunk, max_chunk_size}
use litefs.Chunk.RoundTrip.{after_read}

-- What has arrived of the next chunk, and whether that is its size and nothing more.
pub data Cut (tail : List ℕ) : Bool → Type 0 where
  no_size : tail ≡ [] → Cut tail false
  half_size : (b : ℕ) → tail ≡ b ∷ [] → Cut tail false
  size_only : (k : ℕ) → 0 < k → k ≤ max_chunk_size → tail ≡ be16 k → Cut tail true
  half_chunk :
      (k b : ℕ) (bytes : List ℕ)
      → suc (length bytes) < k
      → k ≤ max_chunk_size
      → tail ≡ be16 k ++ b ∷ bytes
      → Cut tail false

abbrev pub cut_end : Bool → Read (List ℕ)
cut_end true = got [] []
cut_end false = unexpected_eof

module _ (n fuel : ℕ) (r : Reader) where
  abbrev at : List ℕ → Read (List ℕ)
  at tail = after_read n fuel (next_chunk n r (read_full 2 tail))
