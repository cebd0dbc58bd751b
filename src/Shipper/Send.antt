-- ===== src/Shipper/Send.antt =====
-- The requests of internal/topsrv/shipper/pusher.go: send, sendWithRetry and what they count.
pub mod Retry
use topsrv.Base.{
  ℕ, suc, ◌+◌, Bool, true, false, not, ◌&&◌, ◌||◌, Option, none, some, leb, ltb, eqb, if◌then◌else◌,
}
use topsrv.Shipper.State.{
  Pusher, Counters, Env, Response, no_request, timed_out, unreachable, status,
}

-- An error of send: of the transport, or an httpStatusError.
pub data SendError : Type 0 where
  transport : SendError
  http_status : ℕ → SendError

unfoldable pub is_permanent_failure : SendError → Bool
is_permanent_failure transport = false
is_permanent_failure (http_status code) =
    if ltb code 400 || leb 500 code then false else not (eqb code 408) && not (eqb code 429)

-- The counter of send_errors_total that classifyErr names.
count_error : Response → Counters → Counters
count_error no_request c = record c { err_connect = c.err_connect + 1 }
count_error timed_out c = record c { err_timeout = c.err_timeout + 1 }
count_error unreachable c = record c { err_connect = c.err_connect + 1 }
count_error (status code) c = if leb 400 code then record c { err_status = c.err_status + 1 } else c

-- The error of a response, or none for nil.
unfoldable pub error_of : Response → Option SendError
error_of no_request = some transport
error_of timed_out = some transport
error_of unreachable = some transport
error_of (status code) = if leb 400 code then some (http_status code) else none

unfoldable pub send : {E : Type 0} → Env → Pusher E → Pusher E × Option SendError
unfolding count_error error_of
send env p =
    let r = env.response p.sends in
    (record p { sends = p.sends + 1; counters = count_error r p.counters }, error_of r)

retry : {E : Type 0} → Env → SendError → Pusher E → Pusher E × Option SendError
retry env err p =
    if is_permanent_failure err || env.cancelled p.sends then (p, some err) else send env p

-- One more attempt after the backoff, if the failure may pass and the context is not done.
unfoldable pub send_with_retry : {E : Type 0} → Env → Pusher E → Pusher E × Option SendError
unfolding retry
send_with_retry env p =
    let (p', err) = send env p in elim err [ none ↦ (p', none) | some e ↦ retry env e p' ]
