-- ===== src/Http/Client.antt =====
-- pkg/httputil/client.go: a request that is tried again. What a try meets and whether the library for
-- the waits tries again are parameters: the list of the tries that it makes at most.
use pigo.Base.{
  if◌then◌else◌, ltb, leb, ℕ, Bool, true, not, ◌&&◌, ◌||◌, Option, none, some, List, [], ◌∷◌,
}
use pigo.Base.Bytes.{◌==◌, codes, Bytes, lookup}
use pigo.Base.Maps.{assign, StringMap, has_key}

pub record RequestConfig : Type 0 where
  pub headers : StringMap (List Bytes)
  pub method : Bytes
  pub url : Bytes
  pub timeout : ℕ
  pub max_retries : ℕ
  pub initial_backoff : ℕ
  pub max_backoff : ℕ
  pub retry_enabled : Bool

-- times in milliseconds
unfoldable pub default_request_config : Bytes → Bytes → RequestConfig
default_request_config method url = record {
  headers = [];
  method = method;
  url = url;
  timeout = 5000;
  max_retries = 3;
  initial_backoff = 100;
  max_backoff = 10_000;
  retry_enabled = true;
}

pub record Response : Type 0 where
  pub status_code : ℕ
  pub body : Bytes

-- what a try meets: no answer, an answer whose body breaks off, or a whole one
pub data Try : Type 0 where
  no_answer broken_body : Try
  answered : Response → Try

pub data RequestError : Type 0 where
  not_created no_reply unread_body handler_refused : RequestError
  unexpected_status : Response → RequestError

-- the closure `operation`, with the response that is kept; `accepts` is the handler of the configuration
unfoldable pub operation :
    (Response → Bool) → Try → Option Response → Option RequestError × Option Response
operation accepts no_answer kept = (some no_reply, kept)
operation accepts broken_body kept = (some unread_body, kept)
operation accepts (answered r) kept =
    if not (accepts r)
    then (some handler_refused, some r)
    else if ltb r.status_code 200 || leb 300 r.status_code
    then (some (unexpected_status r), some r)
    else (none, some r)

-- backoff.Retry, which ends at the first try without an error
unfoldable pub retry :
    (Response → Bool)
    → List Try
    → Option RequestError × Option Response
    → Option RequestError × Option Response
unfolding operation
retry accepts [] last = last
retry accepts (t ∷ ts) last =
    let tried = operation accepts t last.1 in
    elim tried.0 [ none ↦ (none, tried.1) | some e ↦ retry accepts ts (some e, tried.1) ]

-- Content-Type for a method with a body, if there is none
unfoldable pub with_content_type : Bytes → StringMap (List Bytes) → StringMap (List Bytes)
unfolding assign lookup
with_content_type method headers =
    if (method == codes "POST" || method == codes "PUT" || method == codes "PATCH")
      && not (has_key (codes "Content-Type") headers)
    then assign (codes "Content-Type") (codes "application/json" ∷ []) headers
    else headers

-- Request, with whether net/http can make the request, its first try, and the tries after it
unfoldable pub request :
    RequestConfig
    → Bool
    → (Response → Bool)
    → Try
    → List Try
    → Option RequestError × Option Response
unfolding retry operation
request config created accepts first more =
    if not created
    then (some not_created, none)
    else if config.retry_enabled
    then retry accepts (first ∷ more) (none, none)
    else operation accepts first none
