-- ===== src/Victoria.antt =====
-- internal/victoria/writer.go: lines are sent to VictoriaMetrics. The HTTP client is a parameter.
use vulcan.Prelude.{String, if◌then◌else◌, leb}
use Prim.Native.String.{◌++◌}
use vulcan.Errors.{message, Result, ok, err}
use vulcan.Api.{Response}

-- `http.NewRequest` with a URL and a body of plain text, and `Client.Do` in a state `W` of the world.
abbrev pub Post : Type 0 → Type 0
Post W = String → String → W → Result Response × W

module _ {W : Type 0} (post : Post W) where
  abbrev pub answered : Result Response × W → Result (Unit {0}) × W
  answered (err e, w) = (err e, w)
  answered (ok r, w) = (if leb 300 r.status then err (message "victoria returned") else ok tt, w)

  -- `Writer.Write` of a writer with the URL `url`.
  unfoldable pub write : String → String → W → Result (Unit {0}) × W
  write url body w = answered (post (url ++ "/api/v1/import/prometheus") body w)
