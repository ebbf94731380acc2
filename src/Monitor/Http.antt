-- ===== src/Monitor/Http.antt =====
-- `HTTPMonitorClient` of internal/natsmonitor/client.go. Package net/http and the JSON decoder are the
-- parameter `HttpClient`; closing the body is left out, since its result is not used.
use nats_operator_experiment.Common.{ℕ, Str, codes, ◌++◌, ◌==◌, if◌then◌else◌}
use nats_operator_experiment.Common.Int.{ℤ}
use nats_operator_experiment.Common.Decimal.{format_nat, format_int}
use nats_operator_experiment.Common.Exec.{plain, Result, Exec, raise, lift, ◌>>=◌, wrapped}
use nats_operator_experiment.Monitor.{ConnzResult, MonitorClient}

pub record HttpClient (W : Type 0) : Type 1 where
  pub Request : Type 0
  pub Body : Type 0
  pub new_request : Str → Result Request
  -- the status code and the body of the answer
  pub send : Request → Exec W (ℕ × Body)
  -- json.NewDecoder(…).Decode, which reads the body
  pub decode : Body → Exec W ConnzResult

module _ {W : Type 0} (http : HttpClient W) where
  open http use {Body, new_request, send, decode}

  -- on the answer
  unfoldable pub read_response : Str → ℕ × Body → Exec W ConnzResult
  read_response url (status_code, body) =
      if status_code == 200
      then wrapped (codes "decoding response from " ++ url) (decode body)
      else raise (
          plain (codes "unexpected status " ++ (format_nat status_code ++ (codes " from " ++ url))))

  -- what both functions do with their URL
  unfoldable pub fetch_connz : Str → Exec W ConnzResult
  fetch_connz url = do
    req ← wrapped (codes "creating request") (lift (new_request url))
    resp ← wrapped (codes "querying " ++ url) (send req)
    read_response url resp

  unfoldable pub get_connz : Str → Exec W ConnzResult
  get_connz base_url = fetch_connz (base_url ++ codes "/connz")

  unfoldable pub get_connz_closed : Str → ℤ → Exec W ConnzResult
  get_connz_closed base_url limit =
      fetch_connz (base_url ++ (codes "/connz?state=closed&sort=stop&limit=" ++ format_int limit))

  abbrev pub http_monitor_client : MonitorClient W
  http_monitor_client = record { get_connz = get_connz; get_connz_closed = get_connz_closed }
