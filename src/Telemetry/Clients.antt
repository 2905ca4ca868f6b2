-- ===== src/Telemetry/Clients.antt =====
-- The threads of `client_loop`, as threads of the server.
use openaslc.Base.{
  if_either, ℕ, zero, suc, ◌≡◌, refl, Bool, List, [], ◌∷◌, some, Bool-cases, inl, inr,
  if◌then◌else◌,
}
use openaslc.Base.Outcome.{Outcome, ok, ◌>>=◌, Returns, then-Returns}
use openaslc.Base.Text.{String, utf8}
use openaslc.Logic.Parse.Json.{JsonLibrary, JsonWriter}
use openaslc.MemoryMap.{MemoryMap, input, output, area_of, IsValid}
use openaslc.MemoryMap.Bulk.{snapshot-area}
use openaslc.Telemetry.{Socket, PollResult, send_text_frame}
use openaslc.Telemetry.Client.{poll_client_frame}
use openaslc.Telemetry.Loop.{
  Round, ClientThread, is_closed, telemetry_json, send_message, client_round,
}
use openaslc.Telemetry.Server.{TelemetryServer, create, IsConsistent, stopped, running}

-- That a round of `client_loop` ends without an exception and without undefined behaviour, as far as
-- it depends on the client and on the JSON library: `poll_client_frame` returns, and the messages can
-- be printed.
pub record ClientsReturn (lib : JsonLibrary) (writer : JsonWriter lib) (sock : Socket)
    (can_allocate : ℕ → Bool) : Type 0 where
  pub polls :
      (s : sock.State)
      → (r : PollResult × sock.State) × (poll_client_frame sock can_allocate s ≡ ok r)
  pub prints :
      (seq : ℕ) (inputs outputs : List ℕ)
      → (text : String) × (writer.dump (telemetry_json lib writer seq inputs outputs) ≡ some text)

module _ (lib : JsonLibrary) (writer : JsonWriter lib) (sock : Socket)
    (can_allocate : ℕ → Bool) where
  -- One round of the client thread with this place in `client_threads_`, if there is one.
  unfoldable pub serve_nth :
      Round → List (ClientThread sock) → ℕ → Outcome (List (ClientThread sock))
  serve_nth round [] i = ok []
  serve_nth round (t ∷ threads) zero = do
    t' ← client_round lib writer sock can_allocate t round
    ok (t' ∷ threads)
  serve_nth round (t ∷ threads) (suc i) = do threads' ← serve_nth round threads i; ok (t ∷ threads')

  -- The loop's test of `is_running_`, and a round. No other thread acts between the two snapshots.
  unfoldable pub serve_client :
      MemoryMap → TelemetryServer sock → ℕ → Outcome (TelemetryServer sock)
  serve_client m server i =
      if server.is_running
      then (do
        threads ← serve_nth (record { at_input = m; at_output = m }) server.client_threads i
        ok (record server { client_threads = threads }))
      else ok server

  module _ (clients : ClientsReturn lib writer sock can_allocate) (m : MemoryMap)
      (v : IsValid m) where
    abbrev now : Round
    now = record { at_input = m; at_output = m }

    send_message-returns :
        (s : sock.State) (seq : ℕ)
        → (r : Bool × sock.State) × (send_message lib writer sock can_allocate s seq now ≡ ok r)
    unfolding send_message
    send_message-returns s seq =
        let (text, p) = clients.prints seq (area_of input m) (area_of output m) in
        (
          send_text_frame sock s (utf8 text),
          rw (snapshot-area input v, snapshot-area output v, p) refl,
        )

    client_round-Returns :
        (t : ClientThread sock)
        → Returns
            (λ (t' : ClientThread sock). Unit {0})
            (client_round lib writer sock can_allocate t now)
    unfolding client_round
    client_round-Returns t =
        let (r, p) = clients.polls t.socket in
        if_either (Returns (λ (t' : ClientThread sock). Unit {0})) t.looping
          (then-Returns {P = λ (x : PollResult × sock.State). Unit {0}} _ _ (r, p, tt)
            λ polled u. elim (Bool-cases (is_closed polled.0)) [
              | inl c ↦ rw c (_, refl, tt)
              | inr c ↦
                  let (sent, q) = send_message-returns polled.1 t.sequence in
                  rw c (
                    then-Returns {P = λ (x : Bool × sock.State). Unit {0}} _ _ (sent, q, tt)
                      λ x u'. (_, refl, tt))
            ])
          (t, refl, tt)

    serve_nth-returns :
        (threads : List (ClientThread sock)) (i : ℕ)
        → (threads' : List (ClientThread sock)) × (serve_nth now threads i ≡ ok threads')
    unfolding serve_nth
    serve_nth-returns [] i = ([], refl)
    serve_nth-returns (t ∷ threads) zero =
        let (t', e, _) = client_round-Returns t in (t' ∷ threads, rw e refl)
    serve_nth-returns (t ∷ threads) (suc i) =
        let (threads', e) = serve_nth-returns threads i in (t ∷ threads', rw e refl)

    -- A client's round leaves the server consistent.
    pub serve_client-IsConsistent :
        (server : TelemetryServer sock) (i : ℕ)
        → IsConsistent sock server
        → Returns (IsConsistent sock) (serve_client m server i)
    unfolding serve_client create
    serve_client-IsConsistent _ i stopped = (_, refl, stopped)
    serve_client-IsConsistent _ i (running handle threads) =
        let (threads', e) = serve_nth-returns threads i in (_, rw e refl, running handle threads')

    pub serve_client-create : (i : ℕ) → serve_client m (create sock) i ≡ ok (create sock)
    unfolding serve_client create
    serve_client-create i = refl
