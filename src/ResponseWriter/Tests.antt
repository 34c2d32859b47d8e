-- ===== src/ResponseWriter/Tests.antt =====
-- A response in a few calls.
use gorouter.Base.{ℕ, ◌≡◌, refl, List, [], ◌∷◌, Bool, true, false, Text, codes, length}
use gorouter.ResponseWriter.{
  ProxyResponseWriter, new_proxy_response_writer, write_header, write, set_done, flush,
}
use gorouter.ResponseWriter.Calls.{
  Call, header, body, finish, flushing, run, IsFaithful, run-IsFaithful, run_done,
}

abbrev accept : Text → ℕ × Bool
accept b = (length b, false)

abbrev calls : List Call
calls = body (codes "ab") ∷ header 404 ∷ flushing ∷ finish ∷ body (codes "c") ∷ []

-- The body sets the status, and what comes after Done is dropped.
all_calls :
    (let p = run accept calls new_proxy_response_writer in
      (p.status ≡ 200) × (p.size ≡ 2) × (p.headers ≡ 200 ∷ 404 ∷ []) × (p.sent ≡ codes "ab" ∷ []))
unfolding new_proxy_response_writer write_header write set_done flush
all_calls = (refl, refl, refl, refl)

run-IsFaithful_example : IsFaithful accept (run accept calls new_proxy_response_writer)
run-IsFaithful_example = run-IsFaithful accept calls

abbrev finished : ProxyResponseWriter
finished = set_done (write_header new_proxy_response_writer 404)

finished_done : finished.done ≡ true
unfolding set_done
finished_done = refl

run_done_example :
    ((run accept calls finished).headers ≡ finished.headers)
    × ((run accept calls finished).sent ≡ finished.sent)
    × ((run accept calls finished).status ≡ finished.status)
    × ((run accept calls finished).size ≡ finished.size)
run_done_example = run_done accept calls finished finished_done
