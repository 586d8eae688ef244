-- ===== src/Chunk/RoundTrip.antt =====
-- Reading from a stream of chunks what was written to it (internal/chunk/chunk.go).
use mathlib.Core.List.{append_assoc, append-nil}
use litefs.Prelude.{
  subst, ℕ, zero, suc, ◌≡◌, refl, sym, ap, ap₂, ◌∙◌, ◌<◌, ◌⊎◌, inl, inr, List, [], ◌∷◌, ◌++◌,
  length, take, drop, take-append-drop, length-take, length-append, true, false, be16, to_be16,
  to_be16-be16, arith, ==_ne, if◌then◌else◌,
}
use litefs.Reading.{Read, got, ◌>>=◌, unexpected_eof, read_full, read_full-append}
use litefs.Chunk.{
  Writer, new_writer, write, close, Reader, new_reader, ReadResult, copied, ended, failed, copy_out,
  next_chunk, refill, filled, read_buffered, read, read_all,
}
use litefs.Chunk.Frames.{
  frames, concat, AreChunks, frames-append, concat-append, AreChunks-append, write_chunks-Split,
}

-- A reader with `payload` to come, before the bytes `ending` that follow the last chunk.
pub record Holds (payload ending : List ℕ) (r : Reader) : Type 0 where
  pub chunks : List (List ℕ)
  pub are_chunks : AreChunks chunks
  pub reading : r.at_eof ≡ false
  pub stream : r.stream ≡ frames chunks ++ ending
  pub payload_is : r.buf ++ concat chunks ≡ payload

-- Some of the payload is copied, and the reader holds the remainder.
pub record Copies (payload ending : List ℕ) (result : ReadResult) : Type 0 where
  pub after : Reader
  pub bytes : List ℕ
  pub remainder : List ℕ
  pub result_is : result ≡ copied after bytes
  pub some_bytes : 0 < length bytes
  pub in_order : bytes ++ remainder ≡ payload
  pub holds : Holds remainder ending after

copy_out-Copies :
    (n : ℕ) (r : Reader) (payload ending : List ℕ)
    → 0 < n
    → 0 < length r.buf
    → Holds payload ending r
    → Copies payload ending (copy_out n r)
copy_out-Copies n r payload ending h b v = record {
  after = record r { buf = drop n r.buf };
  bytes = take n r.buf;
  remainder = drop n r.buf ++ concat v.chunks;
  result_is = refl;
  some_bytes = omega (arith, length-take n r.buf);
  in_order =
      sym (append_assoc (take n r.buf) (drop n r.buf) (concat v.chunks))
      ∙ ap (λ t. t ++ concat v.chunks) (take-append-drop n r.buf)
      ∙ v.payload_is;
  holds = record {
    chunks = v.chunks;
    are_chunks = v.are_chunks;
    reading = v.reading;
    stream = v.stream;
    payload_is = refl;
  };
}

next_chunk-Copies :
    (n : ℕ) (r : Reader) (chunk : List ℕ) (chunks : List (List ℕ)) (ending : List ℕ)
    → 0 < n
    → r.at_eof ≡ false
    → AreChunks (chunk ∷ chunks)
    → Copies
        (chunk ++ concat chunks)
        ending
        (next_chunk n r (read_full 2 (frames (chunk ∷ chunks) ++ ending)))
next_chunk-Copies n r chunk chunks ending h q a =
    let c =
      copy_out-Copies n (record r { stream = beyond; b = filled chunk r.b; buf = chunk })
        (chunk ++ concat chunks) ending h (a.0.0)
        (record {
          chunks = chunks;
          are_chunks = a.1;
          reading = q;
          stream = refl;
          payload_is = refl;
        }) in
    record {
      after = c.after;
      bytes = c.bytes;
      remainder = c.remainder;
      result_is = refilled ∙ c.result_is;
      some_bytes = c.some_bytes;
      in_order = c.in_order;
      holds = c.holds;
    }
  where
    beyond : List ℕ
    beyond = frames chunks ++ ending

    size : ℕ
    size = to_be16 (be16 (length chunk)) 0

    size_is : size ≡ length chunk
    size_is = to_be16-be16 (length chunk) (omega (arith, a.0.1))

    stream_is : frames (chunk ∷ chunks) ++ ending ≡ be16 (length chunk) ++ (chunk ++ beyond)
    stream_is =
        append_assoc (be16 (length chunk)) (chunk ++ frames chunks) ending
        ∙ ap (λ t. be16 (length chunk) ++ t) (append_assoc chunk (frames chunks) ending)

    refilled :
        next_chunk n r (read_full 2 (frames (chunk ∷ chunks) ++ ending))
        ≡ copy_out n (record r { stream = beyond; b = filled chunk r.b; buf = chunk })
    refilled =
        ap (λ s. next_chunk n r (read_full 2 s)) stream_is
        ∙ ap (next_chunk n r) (read_full-append (be16 (length chunk)) (chunk ++ beyond))
        ∙ ap
            (λ b.
              if b
              then ended (record r { stream = chunk ++ beyond; at_eof = true })
              else refill n size r (read_full size (chunk ++ beyond)))
            (==_ne size 0 (λ z. omega (arith, size_is, a.0.0)))
        ∙ ap (λ k. refill n k r (read_full k (chunk ++ beyond))) size_is
        ∙ ap (refill n (length chunk) r) (read_full-append chunk beyond)

-- A call of Read either copies some bytes, or reads the size that `ending` begins with.
read-cases :
    (n : ℕ) (r : Reader) (payload ending : List ℕ)
    → 0 < n
    → Holds payload ending r
    → Copies payload ending (read n r)
      ⊎ ((payload ≡ []) × (read n r ≡ next_chunk n r (read_full 2 ending)))
unfolding read
read-cases n r payload ending h v = cases r.buf refl v.chunks refl
  where
    next :
        r.buf ≡ []
        → (chunks : List (List ℕ)) → v.chunks ≡ chunks
        → read_buffered n r r.buf ≡ next_chunk n r (read_full 2 (frames chunks ++ ending))
    next e chunks c =
        ap (read_buffered n r) e
        ∙ ap (λ b. if b then ended r else next_chunk n r (read_full 2 r.stream)) v.reading
        ∙ ap (λ s. next_chunk n r (read_full 2 s)) (v.stream ∙ ap (λ cs. frames cs ++ ending) c)

    cases :
        (buf : List ℕ)
        → r.buf ≡ buf
        → (chunks : List (List ℕ)) → v.chunks ≡ chunks
        → Copies payload ending (read_buffered n r r.buf)
          ⊎ ((payload ≡ []) × (read_buffered n r r.buf ≡ next_chunk n r (read_full 2 ending)))
    cases (b ∷ buf) e chunks c = inl (
        subst (Copies payload ending) (sym (ap (read_buffered n r) e))
          (copy_out-Copies n r payload ending h (omega (arith, ap length e)) v))
    cases [] e (chunk ∷ chunks) c = inl (
        subst (λ p. Copies p ending (read_buffered n r r.buf))
          (ap₂ (λ b cs. b ++ concat cs) (sym e) (sym c) ∙ v.payload_is)
          (subst (Copies (chunk ++ concat chunks) ending) (sym (next e (chunk ∷ chunks) c)) (
            next_chunk-Copies n r chunk chunks ending h v.reading
              (subst AreChunks c v.are_chunks))))
    cases [] e [] c = inr (sym v.payload_is ∙ ap₂ (λ b cs. b ++ concat cs) e c, next e [] c)

-- Reading to the end, after a call of Read.
abbrev pub after_read : ℕ → ℕ → ReadResult → Read (List ℕ)
after_read n fuel (copied r' bytes) = read_all n fuel r' >>= λ more rest. got (bytes ++ more) rest
after_read n fuel (ended r') = got [] r'.stream
after_read n fuel failed = unexpected_eof

abbrev pub in_front : List ℕ → Read (List ℕ) → Read (List ℕ)
in_front bytes r = r >>= λ more rest. got (bytes ++ more) rest

in_front-append :
    (a b : List ℕ) (r : Read (List ℕ)) → in_front a (in_front b r) ≡ in_front (a ++ b) r
in_front-append a b (got more rest) = ap (λ t. got t rest) (sym (append_assoc a b more))
in_front-append a b (Read.eof) = refl
in_front-append a b unexpected_eof = refl
in_front-append a b (Read.invalid_type) = refl

in_front-nil : (r : Read (List ℕ)) → r ≡ in_front [] r
in_front-nil (got more rest) = refl
in_front-nil (Read.eof) = refl
in_front-nil unexpected_eof = refl
in_front-nil (Read.invalid_type) = refl

-- With enough calls all of the payload is read, and then what `ending` gives to a call of Read.
pub read_all-Holds :
    (n fuel : ℕ) (r : Reader) (payload ending : List ℕ) (end : Read (List ℕ))
    → 0 < n
    → length payload < fuel
    → Holds payload ending r
    → ((fuel : ℕ) (r : Reader) → after_read n fuel (next_chunk n r (read_full 2 ending)) ≡ end)
    → read_all n fuel r ≡ in_front payload end
unfolding read_all
read_all-Holds n zero r payload ending end h lt v at_end = absurd (omega arith)
read_all-Holds n (suc fuel) r payload ending end h lt v at_end =
    elim (read-cases n r payload ending h v) [
      | inl c ↦
          ap (after_read n fuel) c.result_is
          ∙ ap (in_front c.bytes) (
              read_all-Holds n fuel c.after c.remainder ending end h
                (omega
                  (arith, length-append c.bytes c.remainder, ap length c.in_order, c.some_bytes))
                c.holds at_end)
          ∙ in_front-append c.bytes c.remainder end
          ∙ ap (λ p. in_front p end) c.in_order
      | inr (z, e) ↦
          ap (after_read n fuel) e
          ∙ at_end fuel r
          ∙ in_front-nil end
          ∙ ap (λ p. in_front p end) (sym z)
    ]

-- A writer after the calls of Write for these pieces.
abbrev pub write_each : List (List ℕ) → Writer → Writer
write_each [] w = w
write_each (p ∷ ps) w = write_each ps (write p w)

pub record Written (ps : List (List ℕ)) (before : Writer) : Type 0 where
  pub chunks : List (List ℕ)
  pub are_chunks : AreChunks chunks
  pub out : (write_each ps before).out ≡ before.out ++ frames chunks
  pub still_open : (write_each ps before).closed ≡ before.closed
  pub payload : concat chunks ≡ concat ps

pub write_each-Written : (ps : List (List ℕ)) (w : Writer) → Written ps w
unfolding write
write_each-Written [] w = record {
  chunks = [];
  are_chunks = tt;
  out = sym (append-nil w.out);
  still_open = refl;
  payload = refl;
}
write_each-Written (p ∷ ps) w =
    let s = write_chunks-Split (length p) p (omega arith) in
    let v = write_each-Written ps (write p w) in
    record {
      chunks = s.chunks ++ v.chunks;
      are_chunks = AreChunks-append s.chunks v.chunks s.are_chunks v.are_chunks;
      out =
          v.out
          ∙ ap (λ t. w.out ++ t ++ frames v.chunks) s.framed
          ∙ append_assoc w.out (frames s.chunks) (frames v.chunks)
          ∙ ap (λ t. w.out ++ t) (sym (frames-append s.chunks v.chunks));
      still_open = v.still_open;
      payload = concat-append s.chunks v.chunks ∙ ap₂ ◌++◌ s.payload v.payload;
    }

-- Pieces of bytes, of any length and empty ones too, are written to a new Writer, which is then
-- closed; other bytes may follow on the stream. A new Reader, read with buffers of any size but 0,
-- gives the bytes of the pieces in order and then io.EOF, and leaves what follows on the stream.
-- One call of Read for each byte and one for io.EOF are enough.
pub read_all-write :
    (ps : List (List ℕ)) (rest : List ℕ) (n fuel : ℕ)
    → 0 < n
    → length (concat ps) < fuel
    → read_all n fuel (new_reader ((close (write_each ps new_writer)).out ++ rest))
      ≡ got (concat ps) rest
unfolding close
read_all-write ps rest n fuel h lt =
    let v = write_each-Written ps new_writer in
    read_all-Holds n fuel _ (concat ps) (be16 0 ++ rest) (got [] rest) h lt
      (record {
        chunks = v.chunks;
        are_chunks = v.are_chunks;
        reading = refl;
        stream =
            ap (λ b. (if b then write_each ps new_writer else closing).out ++ rest) v.still_open
            ∙ ap (λ t. t ++ be16 0 ++ rest) v.out
            ∙ append_assoc (frames v.chunks) (be16 0) rest;
        payload_is = v.payload;
      })
      (λ fuel r. ap (λ s. after_read n fuel (next_chunk n r s)) (read_full-append (be16 0) rest))
    ∙ ap (λ p. got p rest) (append-nil (concat ps))
  where
    closing : Writer
    closing = record { out = (write_each ps new_writer).out ++ be16 0; closed = true }
