-- ===== src/Net/HttpClient/Chunked.antt =====
-- Bodies in chunks.
use esp32emu.Base.{
  ℕ, zero, suc, ◌+◌, ◌<◌, ◌≡◌, refl, ap, ◌∙◌, false, some, List, [], ◌∷◌, ◌++◌, arith, ltb,
  if◌then◌else◌, length, length-append, take, drop, take-append, All,
}
use esp32emu.Base.Strings.{codes, find_str, strtoul}
use esp32emu.Base.Strings.Search.{Lacks, find_str-crlf, drop-add_append}
use esp32emu.Net.Web.{crlf}
use esp32emu.Net.HttpClient.{decode_chunks, decode_chunked_body}

-- A chunk: the text of its size, with what extensions it has, and its bytes.
abbrev pub Chunk : Type 0
Chunk = List ℕ × List ℕ

pub chunked_text : List Chunk → List ℕ
chunked_text [] = codes "0" ++ (13 ∷ 10 ∷ 13 ∷ 10 ∷ [])
chunked_text ((size, bytes) ∷ cs) = size ++ 13 ∷ 10 ∷ (bytes ++ 13 ∷ 10 ∷ chunked_text cs)

abbrev pub chunk_bytes : List Chunk → List ℕ
chunk_bytes [] = []
chunk_bytes ((size, bytes) ∷ cs) = bytes ++ chunk_bytes cs

-- The size is the number of bytes, not 0, in hexadecimal.
abbrev pub IsChunk : Chunk → Type 0
IsChunk (size, bytes) =
    Lacks 13 size
    × (0 < length bytes)
    × ((r : List ℕ) → (e : List ℕ) × (strtoul 16 (size ++ 13 ∷ r) ≡ some (length bytes, e)))

take_chunk : ℕ → ℕ → List ℕ → List ℕ
take_chunk fuel n r =
    let rest = decode_chunks fuel (drop (n + 2) r) in
    if ltb (length r) n then r else take n r ++ rest

take_chunk_lem :
    (fuel : ℕ) (bytes r : List ℕ)
    → take_chunk fuel (length bytes) (bytes ++ 13 ∷ 10 ∷ r) ≡ bytes ++ decode_chunks fuel r
unfolding take_chunk
take_chunk_lem fuel bytes r =
    let long : ltb (length (bytes ++ 13 ∷ 10 ∷ r)) (length bytes) ≡ false =
      ground (arith, length-append bytes (13 ∷ 10 ∷ r)) in
    rw (take_chunk, long, drop-add_append bytes 2 (13 ∷ 10 ∷ r))
      (ap (λ t. t ++ decode_chunks fuel r) (take-append bytes (13 ∷ 10 ∷ r)))

decode_chunks_step :
    (fuel : ℕ) (s : List ℕ) (eol n : ℕ) (e : List ℕ)
    → find_str crlf s ≡ some eol
    → strtoul 16 s ≡ some (n, e)
    → 0 < n
    → decode_chunks (suc fuel) s ≡ take_chunk fuel n (drop (eol + 2) s)
unfolding decode_chunks take_chunk
decode_chunks_step fuel s eol zero e h k pos = absurd (omega arith)
decode_chunks_step fuel s eol (suc n) e h k pos = rw (decode_chunks, h, k)

decode_chunks_end : (fuel : ℕ) → decode_chunks (suc fuel) (chunked_text []) ≡ []
unfolding decode_chunks chunked_text find_str strtoul
decode_chunks_end fuel = refl

decode_chunks-chunked_text :
    (cs : List Chunk) (fuel : ℕ)
    → All IsChunk cs
    → length cs < fuel
    → decode_chunks fuel (chunked_text cs) ≡ chunk_bytes cs
unfolding chunked_text
decode_chunks-chunked_text cs zero h enough = absurd (omega arith)
decode_chunks-chunked_text [] (suc fuel) h enough = decode_chunks_end fuel
decode_chunks-chunked_text ((size, bytes) ∷ cs) (suc fuel) h enough =
    let after = bytes ++ 13 ∷ 10 ∷ chunked_text cs in
    let (e, read) = h.0.2 (10 ∷ after) in
    decode_chunks_step fuel (size ++ 13 ∷ 10 ∷ after) (length size) (length bytes) e
      (find_str-crlf size after h.0.0) read h.0.1
    ∙ ap (take_chunk fuel (length bytes)) (drop-add_append size 2 (13 ∷ 10 ∷ after))
    ∙ take_chunk_lem fuel bytes (chunked_text cs)
    ∙ ap (λ t. bytes ++ t) (decode_chunks-chunked_text cs fuel h.1 (omega arith))

length-chunked_text : (cs : List Chunk) → length cs < length (chunked_text cs)
unfolding chunked_text
length-chunked_text [] = omega arith
length-chunked_text ((size, bytes) ∷ cs) = omega (
  arith,
  length-chunked_text cs,
  length-append size (13 ∷ 10 ∷ (bytes ++ 13 ∷ 10 ∷ chunked_text cs)),
  length-append bytes (13 ∷ 10 ∷ chunked_text cs),
)

-- A body of chunks, none empty, each with its size in hexadecimal, is decoded to the bytes of the chunks in
-- order; the length of the text is enough fuel.
pub decode_chunked_body-chunked_text :
    (cs : List Chunk) → All IsChunk cs → decode_chunked_body (chunked_text cs) ≡ chunk_bytes cs
unfolding decode_chunked_body
decode_chunked_body-chunked_text cs h =
    decode_chunks-chunked_text cs (length (chunked_text cs)) h (length-chunked_text cs)
