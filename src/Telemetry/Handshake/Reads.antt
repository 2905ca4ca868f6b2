-- ===== src/Telemetry/Handshake/Reads.antt =====
-- A request that has arrived is read to its end, and its key is found.
use mathlib.Core.List.{append_assoc, append-nil}
use openaslc.Base.{
  ℕ, zero, Bool, suc, ◌+◌, ◌≤◌, ◌≡◌, refl, sym, ap, ◌∙◌, List, [], ◌∷◌, ◌++◌, Option, none, some,
  length, take, drop, take-append, drop-append, arith, Option-cases, inl, inr, length-append,
}
use openaslc.Telemetry.{Socket, send_all}
use openaslc.Telemetry.Arrival.{Buffered, recv_front}
use openaslc.Telemetry.Handshake.{
  find, marker, line_end, header_end, key_line, trim_left, trim_right, websocket_key, response,
  accept_key, receive_request, read_websocket_key, greet_key, greet,
}
use openaslc.Base.Text.{codes}
use openaslc.Digest.Sha1.{sha1}
use openaslc.Telemetry.Base64.{base64_encode}
use openaslc.Telemetry.Handshake.Find.{
  find-append, find-length, NoBlanks, trim_left-NoBlanks, trim_right-NoBlanks,
}

-- A header line with a key: the marker, one blank and the key.
abbrev pub key_header : List ℕ → List ℕ
key_header key = marker ++ (b' ' ∷ key)

trimmed_key : (key : List ℕ) → NoBlanks key → trim_right (trim_left (b' ' ∷ key)) ≡ key
unfolding trim_left
trimmed_key key h = ap trim_right (trim_left-NoBlanks key h) ∙ trim_right-NoBlanks key h

key_line_at :
    (after : List ℕ) (n : ℕ)
    → find line_end after ≡ some n
    → key_line after ≡ trim_right (trim_left (take n after))
key_line_at after n f = rw (key_line, f) refl

key_line_lem :
    (key rest : List ℕ)
    → NoBlanks key
    → find line_end ((b' ' ∷ key) ++ rest) ≡ some (length (b' ' ∷ key))
    → key_line ((b' ' ∷ key) ++ rest) ≡ key
key_line_lem key rest h f =
    key_line_at ((b' ' ∷ key) ++ rest) (length (b' ' ∷ key)) f
    ∙ (ap (λ (l : List ℕ). trim_right (trim_left l)) (take-append (b' ' ∷ key) rest)
        ∙ trimmed_key key h)

-- The key is found where the first marker of the request stands in a header line with a key without
-- blanks, and the first line end behind the marker is behind the key.
pub websocket_key_lem :
    (before key rest : List ℕ)
    → NoBlanks key
    → find marker (before ++ (key_header key ++ rest)) ≡ some (length before)
    → find line_end ((b' ' ∷ key) ++ rest) ≡ some (length (b' ' ∷ key))
    → websocket_key (before ++ (key_header key ++ rest)) ≡ key
unfolding websocket_key
websocket_key_lem before key rest h m f =
    let whole : before ++ (key_header key ++ rest) ≡ (before ++ marker) ++ ((b' ' ∷ key) ++ rest) =
      sym (append_assoc before marker ((b' ' ∷ key) ++ rest)) in
    let after : drop (length before + length marker) (before ++ (key_header key ++ rest))
        ≡ (b' ' ∷ key) ++ rest =
      ap (λ (n : ℕ). drop n (before ++ (key_header key ++ rest)))
        (sym (length-append before marker))
      ∙ (ap (drop (length (before ++ marker))) whole
          ∙ drop-append (before ++ marker) ((b' ' ∷ key) ++ rest)) in
    rw (m, websocket_key) (ap key_line after ∙ key_line_lem key rest h f)

-- The answer of RFC 6455 to a key, line by line.
abbrev pub switching : List ℕ → List ℕ
switching key =
    codes "HTTP/1.1 101 Switching Protocols"
    ++ (line_end
        ++ (codes "Upgrade: websocket"
            ++ (line_end
                ++ (codes "Connection: Upgrade"
                    ++ (line_end
                        ++ (codes "Sec-WebSocket-Accept: "
                            ++ (base64_encode
                                  (sha1 (key ++ codes "258EAFA5-E914-47DA-95CA-C5AB0DC85B11"))
                                ++ (line_end ++ line_end))))))))

response-switching : (key : List ℕ) → response key ≡ switching key
unfolding response accept_key
response-switching key = refl

module _ (sock : Socket) (law : Buffered sock) (can_allocate : ℕ → Bool) where
  -- Before its last byte the request has not ended.
  not_ended :
      (got : List ℕ) (x : ℕ) (xs : List ℕ) (k : ℕ)
      → find header_end (got ++ (x ∷ xs)) ≡ some k
      → k + 4 ≡ length (got ++ (x ∷ xs))
      → find header_end got ≡ none
  not_ended got x xs k f l = elim (Option-cases (find header_end got)) [
    | inl e ↦ e
    | inr (j, e) ↦
        let found = find-append header_end got (x ∷ xs) j e in
        let same : j ≡ k = cc in
        absurd (omega (arith, find-length header_end got j e, length-append got (x ∷ xs)))
  ]

  receive_one :
      (more : ℕ) (s s' : sock.State) (got : List ℕ) (x : ℕ)
      → find header_end got ≡ none
      → sock.recv s 1 ≡ (some (x ∷ []), s')
      → receive_request sock (suc more) s got ≡ receive_request sock more s' (got ++ (x ∷ []))
  unfolding receive_request
  receive_one more s s' got x g r =
      rw (g, receive_request, r)
        (ap (λ (q : Option (List ℕ) × sock.State). receive_request sock more q.1 (got ++ (x ∷ [])))
          r)

  receive_rest_of :
      (xs : List ℕ) (more : ℕ) (s : sock.State) (got following : List ℕ) (k : ℕ)
      → length xs ≤ more
      → law.incoming s ≡ xs ++ following
      → find header_end (got ++ xs) ≡ some k
      → k + 4 ≡ length (got ++ xs)
      → (s' : sock.State) × (receive_request sock more s got ≡ (some (got ++ xs), s'))
        × (law.incoming s' ≡ following)
  unfolding receive_request
  receive_rest_of [] zero s got following k h e f l =
      (s, ap (λ (b : List ℕ). (some b, s)) (sym (append-nil got)), e)
  receive_rest_of [] (suc more) s got following k h e f l =
      let ended : find header_end got ≡ some k = ap (find header_end) (sym (append-nil got)) ∙ f in
      (s, rw (ended, receive_request) (ap (λ (b : List ℕ). (some b, s)) (sym (append-nil got))), e)
  receive_rest_of (x ∷ xs) zero s got following k h e f l = absurd (omega arith)
  receive_rest_of (x ∷ xs) (suc more) s got following k h e f l =
      let (s', r, i) =
        recv_front sock law can_allocate s (x ∷ []) (xs ++ following) (omega arith) e in
      let whole : (got ++ (x ∷ [])) ++ xs ≡ got ++ (x ∷ xs) = append_assoc got (x ∷ []) xs in
      let (s'', p, i'') =
        receive_rest_of xs more s' (got ++ (x ∷ [])) following k (omega arith) i
          (ap (find header_end) whole ∙ f) (l ∙ ap (λ (b : List ℕ). length b) (sym whole)) in
      (
        s'',
        receive_one more s s' got x (not_ended got x xs k f l) r
            ∙ (p ∙ ap (λ (b : List ℕ). (some b, s'')) whole),
        i'',
      )

  -- A client whose request of at most 8192 bytes has arrived, which ends with its first empty line and
  -- has a key without blanks on a header line that begins with the request's first marker and one
  -- blank: exactly the request is taken off the stream, and the answer of RFC 6455 to that key is sent,
  -- line by line.
  pub greet_lem :
      (s : sock.State) (before key rest following : List ℕ) (c k : ℕ)
      → let request = before ++ (key_header (c ∷ key) ++ rest) in
        length request ≤ 8192
        → law.incoming s ≡ request ++ following
        → find header_end request ≡ some k
        → k + 4 ≡ length request
        → NoBlanks (c ∷ key)
        → find marker request ≡ some (length before)
        → find line_end ((b' ' ∷ (c ∷ key)) ++ rest) ≡ some (length (b' ' ∷ (c ∷ key)))
        → (s' : sock.State) × (greet sock s ≡ send_all sock s' (switching (c ∷ key)))
          × (law.incoming s' ≡ following)
  unfolding greet read_websocket_key greet_key
  greet_lem s before key rest following c k h e f l n m g =
      let request : List ℕ = before ++ (key_header (c ∷ key) ++ rest) in
      let (s', r, i) = receive_rest_of request 8192 s [] following k h e f l in
      (
        s',
        ap
              (λ (q : Option (List ℕ) × sock.State).
                greet_key sock q.1 (elim q.0 [ none ↦ [] | some bytes ↦ websocket_key bytes ]))
              r
            ∙ (ap (greet_key sock s') (websocket_key_lem before (c ∷ key) rest n m g)
                ∙ ap (send_all sock s') (response-switching (c ∷ key))),
        i,
      )
