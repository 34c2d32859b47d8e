-- ===== src/ResponseWriter/Calls.antt =====
-- proxy/responsewriter.go: any sequence of calls.
use gorouter.Base.{
  ℕ, ◌+◌, ◌≡◌, ◌≢◌, ◌⊎◌, inl, inr, refl, sym, subst, List, [], ◌∷◌, ◌++◌, Bool, true, Text,
  if◌then◌else◌, ◌==◌, arith, Bool-cases,
}
use gorouter.ResponseWriter.{
  ProxyResponseWriter, new_proxy_response_writer, write_header, write, set_done, flush,
}

pub data Call : Type 0 where
  header : ℕ → Call
  body : Text → Call
  finish : Call
  flushing : Call

abbrev pub call : (Text → ℕ × Bool) → ProxyResponseWriter → Call → ProxyResponseWriter
call accept p (header s) = write_header p s
call accept p (body b) = (write accept p b).0
call accept p finish = set_done p
call accept p flushing = flush p

abbrev pub run : (Text → ℕ × Bool) → List Call → ProxyResponseWriter → ProxyResponseWriter
run accept [] p = p
run accept (c ∷ cs) p = run accept cs (call accept p c)

-- The status that the client gets: the first one that is not zero.
abbrev pub first_status : List ℕ → ℕ
first_status [] = 0
first_status (s ∷ ss) = if s == 0 then first_status ss else s

abbrev pub total : (Text → ℕ × Bool) → List Text → ℕ
total accept [] = 0
total accept (b ∷ bs) = (accept b).0 + total accept bs

first_status-append :
    (ss : List ℕ) (s : ℕ)
    → first_status (ss ++ s ∷ []) ≡ (if first_status ss == 0 then s else first_status ss)
first_status-append [] s = ground arith
first_status-append (u ∷ ss) s = ground (arith, first_status-append ss s)

total-append :
    (accept : Text → ℕ × Bool) (bs : List Text) (b : Text)
    → total accept (bs ++ b ∷ []) ≡ total accept bs + (accept b).0
total-append accept [] b = omega arith
total-append accept (d ∷ bs) b = omega (arith, total-append accept bs b)

-- What the writer reports is what the underlying writer got.
pub record IsFaithful (accept : Text → ℕ × Bool) (p : ProxyResponseWriter) : Type 0 where
  pub same_status : p.status ≡ first_status p.headers
  pub same_size : p.size ≡ total accept p.sent
  pub header_first : (p.sent ≡ []) ⊎ (p.status ≢ 0)

module _ (accept : Text → ℕ × Bool) where
  call-IsFaithful :
      (p : ProxyResponseWriter) (c : Call)
      → IsFaithful accept p
      → IsFaithful accept (call accept p c)
  unfolding write_header write set_done flush
  call-IsFaithful p (header s) f = elim (Bool-cases p.done) [
    | inl over ↦
        let same : write_header p s ≡ p = ground arith in subst (IsFaithful accept) (sym same) f
    | inr going ↦ record {
      same_status = ground (arith, f.same_status, first_status-append p.headers s);
      same_size = ground (arith, f.same_size);
      header_first = ground (arith, f.header_first);
    }
  ]
  call-IsFaithful p (body b) f = elim (Bool-cases p.done) [
    | inl over ↦
        let same : (write accept p b).0 ≡ p = ground arith in subst (IsFaithful accept) (sym same) f
    | inr going ↦ record {
      same_status = ground (arith, f.same_status, first_status-append p.headers 200);
      same_size = ground (arith, f.same_size, total-append accept p.sent b);
      header_first = inr (λ e. ground arith);
    }
  ]
  call-IsFaithful p finish f = record {
    same_status = f.same_status;
    same_size = f.same_size;
    header_first = f.header_first;
  }
  call-IsFaithful p flushing f = record {
    same_status = f.same_status;
    same_size = f.same_size;
    header_first = f.header_first;
  }

  run-IsFaithful_from :
      (cs : List Call) (p : ProxyResponseWriter)
      → IsFaithful accept p
      → IsFaithful accept (run accept cs p)
  run-IsFaithful_from [] p f = f
  run-IsFaithful_from (c ∷ cs) p f =
      run-IsFaithful_from cs (call accept p c) (call-IsFaithful p c f)

  -- Whatever calls a new response writer gets, its status is the first status other than zero
  -- that the underlying writer got, its size is the number of bytes that one took, and no byte of
  -- the body is passed on before such a status.
  pub run-IsFaithful :
      (cs : List Call) → IsFaithful accept (run accept cs new_proxy_response_writer)
  unfolding new_proxy_response_writer
  run-IsFaithful cs =
      run-IsFaithful_from cs new_proxy_response_writer
        (record { same_status = refl; same_size = refl; header_first = inl refl })

  -- Once a response writer is done, no calls pass on a header or a part of the body, and its
  -- status and its size stay.
  pub run_done :
      (cs : List Call) (p : ProxyResponseWriter)
      → p.done ≡ true
      → let q = run accept cs p in
        (q.headers ≡ p.headers) × (q.sent ≡ p.sent) × (q.status ≡ p.status) × (q.size ≡ p.size)
  unfolding write_header write set_done flush
  run_done [] p over = (refl, refl, refl, refl)
  run_done (header s ∷ cs) p over = ground (arith, run_done cs (write_header p s))
  run_done (body b ∷ cs) p over = ground (arith, run_done cs (write accept p b).0)
  run_done (finish ∷ cs) p over = run_done cs (set_done p) refl
  run_done (flushing ∷ cs) p over = run_done cs (flush p) over
