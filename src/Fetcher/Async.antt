-- ===== src/Fetcher/Async.antt =====
-- `fetch_async` of py/akari/remote_proxy/http_client.py. What the session of aiohttp does is its argument.
use akari_proxy.Prelude.{
  ℕ, ◌+◌, ◌≤◌, ◌<◌, ◌≡◌, refl, inl, inr, List, [], ◌∷◌, ◌++◌, arith, ltb, if◌then◌else◌, ltb→lt,
  lt→ltb, le→ltb, ltb-false→le, Bool-cases, length, take, concat, length-append, length-take,
  take_all, Text, Bytes, nat_eq, text_key,
}
use akari_proxy.Prelude.Decimal.{decimal}
use akari_proxy.Prelude.Str.{codes}
use akari_proxy.Exceptions.{
  Exn, Result, ok, raise, ◌>>=◌, body_too_large_error, invalid_url_error, fetch_error, other_error,
}
use akari_proxy.Handler.State.{HttpResponse}
use akari_proxy.Fetcher.{
  Request, strip_security_headers, normalize_url, request_for, response, dict_onto, timeout_error,
  receive,
}

-- How `session.get` and the reading end: a response in chunks, asyncio.TimeoutError, aiohttp.InvalidURL,
-- ClientResponseError, another ClientError, or any other exception.
pub data Session : Type 0 where
  answered : ℕ → List (Text × Text) → List Bytes → Session
  timed_out : Session
  invalid client_error failure : Text → Session
  response_error : ℕ → Text → Session

-- `InvalidURLError(str(exc))`, without the quoted URL at the message's end.
abbrev pub invalid_of : Text → Exn
invalid_of message = invalid_url_error (codes "サポート外か不正なURLです: ")

-- The chunks are gathered until they are too many; `size` is that of the chunks so far.
unfoldable pub gather : ℕ → ℕ → List Bytes → Result Bytes
gather max_bytes size [] = ok []
gather max_bytes size (chunk ∷ chunks) =
    let size' = size + length chunk in
    let rest = gather max_bytes size' chunks in
    if ltb max_bytes size'
    then raise
        (body_too_large_error (codes "レスポンスボディが" ++ decimal max_bytes ++ codes "バイトの上限を超えました"))
    else elim rest [ raise e ↦ raise e | ok body ↦ ok (chunk ++ body) ]

abbrev respond : ℕ → List (Text × Text) → Bytes → Result HttpResponse
respond status pairs body = ok (record {
  status_code = status;
  headers = strip_security_headers (dict_onto [] pairs);
  body = body;
})

unfoldable pub receive_async : ℕ → Text → Session → Result HttpResponse
unfolding gather strip_security_headers
receive_async max_bytes timeout (answered status pairs chunks) =
    gather max_bytes 0 chunks >>= respond status pairs
receive_async max_bytes timeout timed_out = raise (timeout_error timeout)
receive_async max_bytes timeout (invalid message) = raise (invalid_of message)
receive_async max_bytes timeout (response_error status message) =
    raise (fetch_error (codes "HTTPエラー " ++ decimal status ++ codes ": " ++ message))
receive_async max_bytes timeout (client_error message) = raise (fetch_error message)
receive_async max_bytes timeout (failure message) = raise (other_error message)

unfoldable pub fetch_async : (Request → Session) → ℕ → Text → Text → Result HttpResponse
unfolding normalize_url request_for receive_async
fetch_async session max_bytes timeout url = do
  normalized_url ← normalize_url url
  receive_async max_bytes timeout (session (request_for normalized_url))

too_large : ℕ → Exn
too_large max_bytes =
    body_too_large_error (codes "レスポンスボディが" ++ decimal max_bytes ++ codes "バイトの上限を超えました")

-- The chunks come together as long as all of them fit.
gather-fits :
    (max_bytes size : ℕ) (chunks : List Bytes)
    → size ≤ max_bytes
    → size + length (concat chunks) ≤ max_bytes
    → gather max_bytes size chunks ≡ ok (concat chunks)
unfolding gather
gather-fits max_bytes size [] h k = refl
gather-fits max_bytes size (chunk ∷ chunks) h k =
    rw
      (
        le→ltb max_bytes (size + length chunk)
            (omega (arith, k, length-append chunk (concat chunks))),
        gather-fits max_bytes (size + length chunk) chunks
            (omega (arith, k, length-append chunk (concat chunks)))
            (omega (arith, k, length-append chunk (concat chunks))),
      )
      refl

gather-large :
    (max_bytes size : ℕ) (chunks : List Bytes)
    → size ≤ max_bytes
    → max_bytes < size + length (concat chunks)
    → gather max_bytes size chunks ≡ raise (too_large max_bytes)
unfolding gather too_large
gather-large max_bytes size [] h k = absurd (omega (arith, h, k))
gather-large max_bytes size (chunk ∷ chunks) h k =
    elim (Bool-cases (ltb max_bytes (size + length chunk))) [
      | inl e ↦ rw e refl
      | inr e ↦
          rw
            (
              e,
              gather-large max_bytes (size + length chunk) chunks (ground (arith, e))
                  (omega (arith, k, length-append chunk (concat chunks))),
            )
            refl
    ]

-- A response that comes in chunks gives what `fetch` makes of it when it is read at once.
pub receive_async-receive :
    (max_bytes : ℕ) (timeout : Text) (status : ℕ) (pairs : List (Text × Text)) (chunks : List Bytes)
    → receive_async max_bytes timeout (answered status pairs chunks)
      ≡ receive max_bytes timeout (response status pairs (concat chunks))
unfolding receive_async receive
receive_async-receive max_bytes timeout status pairs chunks =
    elim (Bool-cases (ltb max_bytes (length (concat chunks)))) [
      | inl e ↦
          rw
            (
              gather-large max_bytes 0 chunks (omega arith) (ground (arith, e)),
              lt→ltb max_bytes (length (take (max_bytes + 1) (concat chunks))) (
                  omega (
                    arith,
                    length-take (max_bytes + 1) (concat chunks),
                    ltb→lt max_bytes (length (concat chunks)) e,
                  )),
            )
            (unfold too_large in refl)
      | inr e ↦
          let fits = ltb-false→le max_bytes (length (concat chunks)) e in
          rw
            (
              gather-fits max_bytes 0 chunks (omega arith) (omega (arith, fits)),
              take_all (max_bytes + 1) (concat chunks) (omega (arith, fits)),
              e,
            )
            refl
    ]
