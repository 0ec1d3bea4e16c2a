-- ===== src/Peer/Webhook.antt =====
-- pkg/pipeline/peer/http/peer.go: events as webhooks. base64 and the answers of the endpoints are
-- parameters.
use pigo.Base.{
  eqb, if◌then◌else◌, is_empty, ℕ, ◌⊎◌, inl, inr, true, ◌&&◌, ◌||◌, Option, none, some, List, [],
  ◌∷◌, ◌++◌, map,
}
use pigo.Base.Bytes.{◌==◌, codes, Bytes}
use pigo.Base.Maps.{StringMap, assign}
use pigo.Http.Client.{RequestConfig, RequestError, default_request_config}

pub record AuthConfig : Type 0 where
  pub type : Bytes
  pub api_key : Bytes
  pub api_key_name : Bytes
  pub username : Bytes
  pub password : Bytes
  pub token : Bytes
  pub token_file : Bytes
  pub client_id : Bytes
  pub client_secret : Bytes
  pub token_url : Bytes
  pub service_account_file : Bytes
  pub aws_region : Bytes
  pub aws_access_key_id : Bytes
  pub aws_secret_access_key : Bytes
  pub cloudflare_token : Bytes
  pub cloudflare_key : Bytes
  pub cloudflare_email : Bytes

-- times in milliseconds
pub record RetryConfig : Type 0 where
  pub max_retries : ℕ
  pub initial_wait : ℕ
  pub max_wait : ℕ

pub record EndpointConfig : Type 0 where
  pub headers : StringMap Bytes
  pub url : Bytes
  pub method : Bytes

pub record Webhook : Type 0 where
  pub auth : AuthConfig
  pub endpoints : List EndpointConfig
  pub retry : RetryConfig
  pub timeout : ℕ

abbrev pub or_default_number : ℕ → ℕ → ℕ
or_default_number n default = if eqb n 0 then default else n

unfoldable pub default_method : EndpointConfig → EndpointConfig
default_method e = record e { method = if is_empty e.method then codes "POST" else e.method }

unfoldable pub set_default_config : Webhook → Webhook
unfolding default_method
set_default_config w = record w {
  retry = record {
    max_retries = or_default_number w.retry.max_retries 3;
    initial_wait = or_default_number w.retry.initial_wait 1000;
    max_wait = or_default_number w.retry.max_wait 30_000;
  };
  endpoints = map default_method w.endpoints;
  auth = record w.auth { type = if is_empty w.auth.type then codes "none" else w.auth.type };
}

pub data WebhookError : Type 0 where
  no_endpoints bad_timeout missing_api_key missing_basic missing_bearer missing_oauth2
        missing_account missing_aws missing_cloudflare :
      WebhookError

-- an error, or the settings with the default name of the header for an API key
unfoldable pub validate_auth : AuthConfig → WebhookError ⊎ AuthConfig
validate_auth a =
    if a.type == codes "apikey"
    then (if is_empty a.api_key
        then inl missing_api_key
        else inr (record a {
          api_key_name = if is_empty a.api_key_name then codes "X-API-Key" else a.api_key_name;
        }))
    else if a.type == codes "basic"
    then (if is_empty a.username || is_empty a.password then inl missing_basic else inr a)
    else if a.type == codes "bearer"
    then (if is_empty a.token && is_empty a.token_file then inl missing_bearer else inr a)
    else if a.type == codes "oauth2"
    then (if is_empty a.client_id || is_empty a.client_secret || is_empty a.token_url
        then inl missing_oauth2
        else inr a)
    else if a.type == codes "gcp_service_account"
    then (if is_empty a.service_account_file then inl missing_account else inr a)
    else if a.type == codes "aws_iam"
    then (if (is_empty a.aws_access_key_id || is_empty a.aws_secret_access_key)
          && is_empty a.aws_region
        then inl missing_aws
        else inr a)
    else if a.type == codes "cloudflare"
    then (if is_empty a.cloudflare_token
          && (is_empty a.cloudflare_key || is_empty a.cloudflare_email)
        then inl missing_cloudflare
        else inr a)
    else inr a

-- Connect, with the text of the timeout and time.ParseDuration
unfoldable pub connect : (Bytes → Option ℕ) → Bytes → Webhook → WebhookError ⊎ Webhook
unfolding set_default_config validate_auth
connect parse_duration timeout w =
    if is_empty w.endpoints
    then inl no_endpoints
    else elim (if is_empty timeout then some 30_000 else parse_duration timeout) [
      | none ↦ inl bad_timeout
      | some t ↦
          let ready = set_default_config (record w { timeout = t }) in
          elim (validate_auth ready.auth) [
            | inl e ↦ inl e
            | inr auth ↦ inr (record ready { auth = auth })
          ]
    ]

abbrev pub one_each : StringMap Bytes → StringMap (List Bytes) → StringMap (List Bytes)
one_each [] headers = headers
one_each ((k, v) ∷ m) headers = one_each m (assign k (v ∷ []) headers)

module _ (base64 : Bytes → Bytes) where
  unfoldable pub build_headers : AuthConfig → EndpointConfig → StringMap (List Bytes)
  unfolding assign
  build_headers a endpoint =
      let headers = one_each endpoint.headers [] in
      if a.type == codes "apikey"
      then assign a.api_key_name (a.api_key ∷ []) headers
      else if a.type == codes "basic"
      then assign (codes "Authorization")
          ((codes "Basic " ++ base64 (a.username ++ codes ":" ++ a.password)) ∷ []) headers
      else if a.type == codes "bearer"
      then assign (codes "Authorization") ((codes "Bearer " ++ a.token) ∷ []) headers
      else if a.type == codes "cloudflare"
      then (if is_empty a.cloudflare_token
          then assign (codes "X-Auth-Email") (a.cloudflare_email ∷ [])
              (assign (codes "X-Auth-Key") (a.cloudflare_key ∷ []) headers)
          else assign (codes "Authorization") ((codes "Bearer " ++ a.cloudflare_token) ∷ [])
              headers)
      else headers

  unfoldable pub endpoint_request : Webhook → EndpointConfig → RequestConfig
  unfolding default_request_config build_headers
  endpoint_request w endpoint = record (default_request_config endpoint.method endpoint.url) {
    headers = build_headers w.auth endpoint;
    timeout = w.timeout;
    retry_enabled = true;
    max_retries = w.retry.max_retries;
    initial_backoff = w.retry.initial_wait;
    max_backoff = w.retry.max_wait;
  }

  -- The loop of Pub: each endpoint is asked, and the last error is returned, with the requests made.
  unfoldable pub publish_to :
      (RequestConfig → Option RequestError)
      → Webhook
      → List EndpointConfig
      → Option RequestError
      → List RequestConfig
      → Option RequestError × List RequestConfig
  unfolding endpoint_request
  publish_to ask w [] last made = (last, made)
  publish_to ask w (endpoint ∷ endpoints) last made =
      let config = endpoint_request w endpoint in
      publish_to ask w endpoints (elim (ask config) [ none ↦ last | some e ↦ some e ])
        (made ++ config ∷ [])
