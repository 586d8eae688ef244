-- ===== src/Chunk/Examples.antt =====
-- Three pieces, one of them empty, through a Writer and a Reader (internal/chunk/chunk.go), and cut
-- off.
use litefs.Prelude.{ℕ, ◌≡◌, refl, List, [], ◌∷◌, ◌++◌, arith}
use litefs.Reading.{got}
use litefs.Chunk.{new_writer, new_reader, write, close, read_all}
use litefs.Chunk.RoundTrip.{write_each, read_all-write}

abbrev pieces : List (List ℕ)
pieces = (1 ∷ 2 ∷ 3 ∷ []) ∷ [] ∷ (4 ∷ []) ∷ []

written_bytes :
    (close (write_each pieces new_writer)).out ≡ 0 ∷ 3 ∷ 1 ∷ 2 ∷ 3 ∷ 0 ∷ 1 ∷ 4 ∷ 0 ∷ 0 ∷ []
unfolding write close
written_bytes = refl

read_all-write_example :
    read_all 2 5 (new_reader ((close (write_each pieces new_writer)).out ++ 9 ∷ []))
    ≡ got (1 ∷ 2 ∷ 3 ∷ 4 ∷ []) (9 ∷ [])
read_all-write_example = read_all-write pieces (9 ∷ []) 2 5 (omega arith) (omega arith)
