-- ===== src/Engine/Serve/Run/Sample.antt =====
-- Connections that are pipes, on which no HTTP request comes, and a script that takes every endpoint.
use dandelion.Prelude.{ℕ, []}
use dandelion.Prelude.Exec.{ok}
use dandelion.Net.Coded.{coded}
use dandelion.Io.Pipe.{pipe}
use dandelion.Http.Handshake.Conn.Listed.{http, server}
use dandelion.Engine.Config.{Rune}
use dandelion.Engine.Serve.Run.{Parts}

abbrev pub piped : (rune : Rune) → Parts rune
piped rune = record {
  tcp = pipe;
  t = coded;
  h = http;
  Sender = ℕ;
  server = server;
  serve_connection = λ io. ([], []);
  C = Unit {0};
  Remote = ℕ;
  call = λ f r cache w. (ok 1, w);
  copy_tcp = λ remote s. (ok (0, 0), s);
  copy_server = λ remote s. (ok (0, 0), s);
}
