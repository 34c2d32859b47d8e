-- ===== src/ResponseWriter.antt =====
-- proxy/responsewriter.go: what the proxy keeps of the response that it passes on. `headers` and
-- `sent` are the calls that the underlying writer got, and `accept` is what its
-- Write answers to a text, at every call the same.
pub mod Calls
mod Tests
use gorouter.Base.{ℕ, ◌+◌, List, [], ◌∷◌, ◌++◌, Bool, true, false, Text, if◌then◌else◌, ◌==◌}

pub record ProxyResponseWriter : Type 0 where
  pub status : ℕ
  pub size : ℕ
  pub done : Bool
  pub headers : List ℕ
  pub sent : List Text
  pub flushes : ℕ

unfoldable pub new_proxy_response_writer : ProxyResponseWriter
new_proxy_response_writer = record {
  status = 0;
  size = 0;
  done = false;
  headers = [];
  sent = [];
  flushes = 0;
}

abbrev pub status_ok : ℕ
status_ok = 200

unfoldable pub write_header : ProxyResponseWriter → ℕ → ProxyResponseWriter
write_header p s =
    if p.done
    then p
    else record p { headers = p.headers ++ s ∷ []; status = if p.status == 0 then s else p.status }

-- Write, with the number of bytes and whether there was an error.
unfoldable pub write :
    (Text → ℕ × Bool) → ProxyResponseWriter → Text → ProxyResponseWriter × ℕ × Bool
write accept p b =
    if p.done
    then (p, 0, false)
    else let p' = if p.status == 0 then write_header p status_ok else p in
      (
        record p' { sent = p'.sent ++ b ∷ []; size = p'.size + (accept b).0 },
        (accept b).0,
        (accept b).1,
      )

unfoldable pub set_done : ProxyResponseWriter → ProxyResponseWriter
set_done p = record p { done = true }

unfoldable pub flush : ProxyResponseWriter → ProxyResponseWriter
flush p = record p { flushes = p.flushes + 1 }
