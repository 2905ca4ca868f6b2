-- ===== src/Controller/Main/Examples.antt =====
-- A run of `main` with requests and clients between its calls.
use openaslc.Base.{List, Option, length, take, drop, ltb, false, ℕ, [], ◌∷◌, none, some}
use openaslc.Base.Text.{String, codes}
use openaslc.Logic.Parse.Sample.{sample, document, input_body, print}
use openaslc.Logger.{working}
use openaslc.Logic.Parse.Printer.{cut_writer}
use openaslc.Archive.Memory.{memory}
use openaslc.Telemetry.{Socket}
use openaslc.Telemetry.Server.{listening}
use openaslc.Web.{Request}
use openaslc.Web.Deploy.{Times}
use openaslc.Web.Input.SampleReader.{reader}
use openaslc.Controller.Main.{
  Libraries, scans, flushes, accepts, serves, deploys, asks_history, inputs, Host,
}

abbrev clock : ℕ → String
clock now = "2026-01-01T00:00:00"

-- A socket with what its peer has sent: the whole request for a handshake, and nothing after it. It
-- takes all that is sent.
abbrev peer_recv : List ℕ → ℕ → Option (List ℕ) × List ℕ
peer_recv [] n = (none, [])
peer_recv (b ∷ bytes) n = (some (take n (b ∷ bytes)), drop n (b ∷ bytes))

abbrev peer : Socket
peer = record {
  State = List ℕ;
  ready = λ s. false;
  recv = peer_recv;
  send = λ s bytes. (some (length bytes), s);
}

abbrev handshake : List ℕ
handshake = codes "GET /chat HTTP/1.1\r\nSec-WebSocket-Key: dGhlIHNhbXBsZSBub25jZQ==\r\n\r\n"

abbrev libs : Libraries
libs = record {
  lib = sample;
  writer = cut_writer;
  reader = reader;
  sq = memory;
  put_time = clock;
  sock = peer;
  can_allocate = λ n. ltb n 1000;
}

abbrev deploy_request : Request
deploy_request = record { body = print document; param = λ key. some "ann" }

abbrev input_request : Request
input_request = record { body = print input_body; param = λ key. none }

abbrev times : Times
times = record { commit = 1500; deployment = 1501; log = 1502 }

-- At every place a scan, a client, each kind of request, a flush and another scan.
abbrev host : Host libs
host = record {
  db_path = "data/config_archive.db";
  example_path = "examples/logic_example.json";
  example = some (print document);
  reload_path = "examples/logic_example_reload.json";
  reload_example = some "no document";
  files = λ i. none;
  opened = listening 3;
  disk = working;
  clock = λ i. i;
  between = λ place.
      scans
      ∷ (accepts (some handshake)
          ∷ (serves 0
              ∷ (deploys deploy_request times
                  ∷ (asks_history input_request
                      ∷ (inputs input_request ∷ (flushes working ∷ (scans ∷ [])))))));
}
