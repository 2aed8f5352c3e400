-- ===== src/Api/Listen.antt =====
-- The HTTP server of the REST API.
use tsdb_operator.Base.{String, if◌then◌else◌, ◌==◌, Result, ok, err, Error, wrap, Action}
use tsdb_operator.Base.Text.{◌<>◌}
use tsdb_operator.Api.{Gin, Server, Request, Response, serve}

-- How the server listens: HTTPS with the files of its certificate directory, or HTTP.
pub data Listen : Type 0 where
  plain : Listen
  tls : (cert_file key_file : String) → Listen

abbrev pub listening : String → Listen
listening dir = if dir == "" then plain else tls (dir <> "/tls.crt") (dir <> "/tls.key")

-- What ends the wait: the context, or the server.
pub data Stop : Type 0 where
  context_done : Stop
  server_closed : Stop
  server_failed : Error → Stop

-- net/http: a server that answers requests with a handler until the context is done or it fails.
pub record HttpServer (Q Sel W : Type 0) : Type 0 where
  pub wait : (addr : String) → Listen → (Request → W → Response Q Sel × W) → W → Stop × W
  pub shutdown : Action W Unit

module _ {Q Sel W : Type 0} (h : HttpServer Q Sel W) (g : Gin Q Sel) (s : Server Q Sel W) where
  abbrev pub stopped : Stop × W → Result Unit × W
  stopped (context_done, w) = h.shutdown w
  stopped (server_closed, w) = (ok tt, w)
  stopped (server_failed e, w) = (err (wrap "http server" e), w)

  unfoldable pub listen_and_serve : (addr : String) → Action W Unit
  unfolding serve
  listen_and_serve addr w = stopped (h.wait addr (listening s.tls_cert_dir) (serve g s) w)
