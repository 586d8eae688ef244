-- ===== src/Chunk/Frames.antt =====
-- The chunks that Writer.Write makes (internal/chunk/chunk.go).
use mathlib.Core.List.{append_assoc}
use litefs.Prelude.{
  ℕ, zero, suc, ◌≡◌, refl, sym, ap, ◌∙◌, ◌<◌, ◌≤◌, List, [], ◌∷◌, ◌++◌, length, take, drop,
  take-append-drop, length-take, length-drop, be16, arith,
}
use litefs.Chunk.{max_chunk_size, write_chunks}

-- Chunks as the stream has them: the size, and the bytes.
abbrev pub frames : List (List ℕ) → List ℕ
frames [] = []
frames (chunk ∷ chunks) = be16 (length chunk) ++ (chunk ++ frames chunks)

abbrev pub concat : List (List ℕ) → List ℕ
concat [] = []
concat (chunk ∷ chunks) = chunk ++ concat chunks

-- Not empty, and at most 65535 bytes.
abbrev pub AreChunks : List (List ℕ) → Type 0
AreChunks [] = Unit
AreChunks (chunk ∷ chunks) =
    ((0 < length chunk) × (length chunk ≤ max_chunk_size)) × AreChunks chunks

pub frames-append : (cs ds : List (List ℕ)) → frames (cs ++ ds) ≡ frames cs ++ frames ds
frames-append [] ds = refl
frames-append (c ∷ cs) ds =
    ap (λ t. be16 (length c) ++ (c ++ t)) (frames-append cs ds)
    ∙ ap (λ t. be16 (length c) ++ t) (sym (append_assoc c (frames cs) (frames ds)))
    ∙ sym (append_assoc (be16 (length c)) (c ++ frames cs) (frames ds))

pub concat-append : (cs ds : List (List ℕ)) → concat (cs ++ ds) ≡ concat cs ++ concat ds
concat-append [] ds = refl
concat-append (c ∷ cs) ds =
    ap (λ t. c ++ t) (concat-append cs ds) ∙ sym (append_assoc c (concat cs) (concat ds))

pub AreChunks-append : (cs ds : List (List ℕ)) → AreChunks cs → AreChunks ds → AreChunks (cs ++ ds)
AreChunks-append [] ds a b = b
AreChunks-append (c ∷ cs) ds a b = (a.0, AreChunks-append cs ds a.1 b)

-- What a call of Write puts on the stream.
pub record Split (p out : List ℕ) : Type 0 where
  pub chunks : List (List ℕ)
  pub are_chunks : AreChunks chunks
  pub framed : out ≡ frames chunks
  pub payload : concat chunks ≡ p

pub write_chunks-Split : (fuel : ℕ) (p : List ℕ) → length p ≤ fuel → Split p (write_chunks fuel p)
unfolding write_chunks
write_chunks-Split zero [] le = record {
  chunks = [];
  are_chunks = tt;
  framed = refl;
  payload = refl;
}
write_chunks-Split zero (b ∷ p) le = absurd (omega arith)
write_chunks-Split (suc fuel) [] le = record {
  chunks = [];
  are_chunks = tt;
  framed = refl;
  payload = refl;
}
write_chunks-Split (suc fuel) (b ∷ p) le =
    let chunk = take max_chunk_size (b ∷ p) in
    let s =
      write_chunks-Split fuel (drop max_chunk_size (b ∷ p))
        (omega (arith, length-drop max_chunk_size (b ∷ p))) in
    record {
      chunks = chunk ∷ s.chunks;
      are_chunks = (
        (
          omega (arith, length-take max_chunk_size (b ∷ p)),
          omega (arith, length-take max_chunk_size (b ∷ p)),
        ),
        s.are_chunks,
      );
      framed = ap (λ t. be16 (length chunk) ++ (chunk ++ t)) s.framed;
      payload = ap (λ t. chunk ++ t) s.payload ∙ take-append-drop max_chunk_size (b ∷ p);
    }
