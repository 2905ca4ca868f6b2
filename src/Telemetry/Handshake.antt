-- ===== src/Telemetry/Handshake.antt =====
-- The handshake and the loop of one client: `read_websocket_key`, what `accept_loop` does with a
-- connection, and `client_loop`.
pub mod Find
pub mod Reads
mod Examples
use openaslc.Base.{
  ℕ, zero, suc, ◌+◌, ◌-◌, ◌%◌, ◌^◌, Bool, true, false, ◌&&◌, ◌||◌, List, [], ◌∷◌, ◌++◌, Option,
  none, some, ◌==◌, if◌then◌else◌, length, get_or, take, drop, map,
}
use openaslc.Base.Outcome.{Outcome, ok, throws, ◌>>=◌}
use openaslc.Base.Text.{String, codes, utf8}
use openaslc.Digest.Sha1.{sha1}
use openaslc.Logic.Parse.Json.{JsonLibrary, JsonWriter}
use openaslc.MemoryMap.{MemoryMap, input, output, get_area_snapshot}
use openaslc.Telemetry.{Socket, PollResult, no_data, closed, handled, send_all}
use openaslc.Telemetry.Base64.{base64_encode}

abbrev pub is_prefix : List ℕ → List ℕ → Bool
is_prefix [] text = true
is_prefix (c ∷ cs) [] = false
is_prefix (c ∷ cs) (d ∷ text) = (c == d) && is_prefix cs text

abbrev pub next_place : Option ℕ → Option ℕ
next_place none = none
next_place (some n) = some (suc n)

-- `text.find(needle)`: the place of the first occurrence; `none` is npos.
unfoldable pub find : List ℕ → List ℕ → Option ℕ
find needle [] = if is_prefix needle [] then some 0 else none
find needle (c ∷ text) =
    let later = next_place (find needle text) in
    if is_prefix needle (c ∷ text) then some 0 else later

abbrev pub is_blank : ℕ → Bool
is_blank c = (c == b' ') || (c == 9)

unfoldable pub trim_left : List ℕ → List ℕ
trim_left [] = []
trim_left (c ∷ cs) = let rest = trim_left cs in if is_blank c then rest else c ∷ cs

unfoldable pub trim_right : List ℕ → List ℕ
trim_right [] = []
trim_right (c ∷ cs) = keep c (trim_right cs)
  where
    keep : ℕ → List ℕ → List ℕ
    keep c [] = if is_blank c then [] else c ∷ []
    keep c (d ∷ rest) = c ∷ (d ∷ rest)

-- "\r\n" and "\r\n\r\n"
abbrev pub line_end : List ℕ
line_end = 13 ∷ (10 ∷ [])

abbrev pub header_end : List ℕ
header_end = 13 ∷ (10 ∷ (13 ∷ (10 ∷ [])))

abbrev pub marker : List ℕ
marker = codes "Sec-WebSocket-Key:"

abbrev key_line : List ℕ → List ℕ
key_line after = elim (find line_end after) [
  | none ↦ []
  | some n ↦ trim_right (trim_left (take n after))
]

-- The key in a request, empty if there is none.
unfoldable pub websocket_key : List ℕ → List ℕ
websocket_key request = elim (find marker request) [
  | none ↦ []
  | some pos ↦ key_line (drop (pos + length marker) request)
]

abbrev ws_magic_guid : List ℕ
ws_magic_guid = codes "258EAFA5-E914-47DA-95CA-C5AB0DC85B11"

unfoldable pub accept_key : List ℕ → List ℕ
accept_key key = base64_encode (sha1 (key ++ ws_magic_guid))

unfoldable pub response : List ℕ → List ℕ
response key =
    codes
      "HTTP/1.1 101 Switching Protocols\r\nUpgrade: websocket\r\nConnection: Upgrade\r\nSec-WebSocket-Accept: "
    ++ (accept_key key ++ header_end)

module _ (sock : Socket) where
  open sock use {State, recv}

  -- The loop of `read_websocket_key`, which may read so many bytes more: a request has fewer than
  -- 8192 when another is read.
  unfoldable pub receive_request : ℕ → State → List ℕ → Option (List ℕ) × State
  receive_request zero s request = (some request, s)
  receive_request (suc more) s request = elim (find header_end request) [
    | some n ↦ (some request, s)
    | none ↦
        let (got, s') = recv s 1 in
        elim got [
          | none ↦ (none, s')
          | some bytes ↦ receive_request more s' (request ++ (get_or bytes 0 0 ∷ []))
        ]
  ]

  unfoldable pub read_websocket_key : State → List ℕ × State
  read_websocket_key s =
      let (request, s') = receive_request 8192 s [] in
      (elim request [ none ↦ [] | some bytes ↦ websocket_key bytes ], s')

  -- What `accept_loop` does with the key: true where the client gets a thread, false where its socket
  -- is closed.
  unfoldable pub greet_key : State → List ℕ → Bool × State
  greet_key s [] = (false, s)
  greet_key s (c ∷ key) = send_all sock s (response (c ∷ key))

  unfoldable pub greet : State → Bool × State
  greet s = let (key, s') = read_websocket_key s in greet_key s' key
