-- ===== src/Telemetry/Handshake/Examples.antt =====
-- The request of RFC 6455, section 1.3.
use openaslc.Base.{
  ℕ, true, ◌≤◌, ◌<◌, ◌≡◌, refl, List, [], ◌∷◌, ◌++◌, arith, Option, none, some, length, take, drop,
}
use openaslc.Base.Text.{codes}
use openaslc.Base.Words.{be_bytes, left_rotate}
use openaslc.Digest.{pad, fill, words_from, word_at, blocks}
use openaslc.Digest.Sha1.{sha1, process_chunk, rounds, round, round_f, round_k, extend}
use openaslc.Telemetry.{Socket, send_all}
use openaslc.Telemetry.Arrival.{Buffered}
use openaslc.Telemetry.Base64.{base64_encode, letter}
use openaslc.Telemetry.Handshake.{find, header_end, marker, line_end, accept_key, greet}
use openaslc.Telemetry.Handshake.Find.{NoBlanks}
use openaslc.Telemetry.Handshake.Reads.{key_header, greet_lem, switching}

-- Its key is "dGhlIHNhbXBsZSBub25jZQ==".
abbrev rest_of_key : List ℕ
rest_of_key = codes "GhlIHNhbXBsZSBub25jZQ=="

abbrev key : List ℕ
key = b'd' ∷ rest_of_key

accept_key_test : accept_key key ≡ codes "s3pPLMBiTxaQ9kYGzzhZRbK+xOo="
unfolding accept_key base64_encode letter sha1 process_chunk rounds round round_f round_k extend pad
    fill words_from word_at blocks be_bytes left_rotate
accept_key_test = refl

abbrev before : List ℕ
before = codes "GET /chat HTTP/1.1\r\n"

abbrev request : List ℕ
request = before ++ (key_header key ++ header_end)

abbrev received : List ℕ → ℕ → Option (List ℕ) × List ℕ
received [] n = (none, [])
received (b ∷ bytes) n = (some (take n (b ∷ bytes)), drop n (b ∷ bytes))

received_full :
    (s : List ℕ) (n : ℕ)
    → 0 < n
    → n ≤ length s
    → (s' : List ℕ) × (received s n ≡ (some (take n s), s')) × (s' ≡ drop n s)
received_full [] n pos le = absurd (omega arith)
received_full (b ∷ bytes) n pos le = (drop n (b ∷ bytes), refl, refl)

-- A socket on which everything has arrived.
abbrev connection : Socket
connection = record {
  State = List ℕ;
  ready = λ s. true;
  recv = received;
  send = λ s bytes. (some (length bytes), s);
}

abbrev connection_law : Buffered connection
connection_law = record { incoming = λ s. s; full = received_full }

request_ends : find header_end request ≡ some 63
unfolding find
request_ends = refl

marker_found : find marker request ≡ some (length before)
unfolding find
marker_found = refl

key_ends : find line_end ((b' ' ∷ key) ++ header_end) ≡ some (length (b' ' ∷ key))
unfolding find
key_ends = refl

key-NoBlanks : NoBlanks key
key-NoBlanks = (
  refl,
  (
    refl,
    (
      refl,
      (
        refl,
        (
          refl,
          (
            refl,
            (
              refl,
              (
                refl,
                (
                  refl,
                  (
                    refl,
                    (
                      refl,
                      (
                        refl,
                        (
                          refl,
                          (
                            refl,
                            (
                              refl,
                              (
                                refl,
                                (refl, (refl, (refl, (refl, (refl, (refl, (refl, (refl, tt)))))))),
                              ),
                            ),
                          ),
                        ),
                      ),
                    ),
                  ),
                ),
              ),
            ),
          ),
        ),
      ),
    ),
  ),
)

greet_lem_example :
    (s' : List ℕ) × (greet connection (request ++ (7 ∷ []))
      ≡ send_all connection s' (switching key))
    × (s' ≡ 7 ∷ [])
greet_lem_example =
    greet_lem connection connection_law (λ n. true) (request ++ (7 ∷ [])) before rest_of_key
      header_end (7 ∷ []) b'd' 63 (omega arith) refl request_ends refl key-NoBlanks marker_found
      key_ends
