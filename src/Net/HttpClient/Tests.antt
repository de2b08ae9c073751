-- ===== src/Net/HttpClient/Tests.antt =====
-- Instances for a URL with a port and for a body of two chunks.
use esp32emu.Base.{◌≡◌, refl, true, some, List, [], ◌∷◌, ◌++◌, arith}
use esp32emu.Base.Strings.{codes, strtoul}
use esp32emu.Net.HttpClient.{HttpClient, begin, decode_chunked_body}
use esp32emu.Net.HttpClient.Chunked.{
  Chunk, chunked_text, chunk_bytes, decode_chunked_body-chunked_text,
}
use esp32emu.Net.HttpClient.Addresses.{url_text, begin-url_text}

abbrev fresh : HttpClient
fresh = record { host = []; port = 80; path = []; headers = []; response_body = [] }

begin-url_text_example :
    begin (url_text true (codes "h.org") (some 8443) (b'/' ∷ codes "x")) fresh ≡ (
      record {
        host = codes "h.org";
        port = 8443;
        path = b'/' ∷ codes "x";
        headers = [];
        response_body = [];
      },
      true,
    )
begin-url_text_example =
    begin-url_text true (codes "h.org") (some 8443) (codes "x") fresh (omega arith) (omega arith)
      (omega arith) (omega arith)

abbrev pieces : List Chunk
pieces = (codes "A;x", codes "0123456789") ∷ (codes "01", codes "!") ∷ []

decode_chunked_body-chunked_text_example :
    decode_chunked_body (chunked_text pieces) ≡ chunk_bytes pieces
unfolding strtoul
decode_chunked_body-chunked_text_example = decode_chunked_body-chunked_text pieces (
  (omega arith, omega arith, λ r. (codes ";x" ++ 13 ∷ r, refl)),
  ((omega arith, omega arith, λ r. (13 ∷ r, refl)), tt),
)
