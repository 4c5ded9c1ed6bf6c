-- ===== src/Providers/Endpoint.antt =====
-- crates/providers/src/lib.rs: `validate_endpoint`, `endpoint_is_loopback` and
-- `RemoteWorkerProvider::new_with_timeouts`. A URL is what the crate url parsed of it; a time is in
-- milliseconds.
pub mod Secure
use free_whisper.Prelude.{
  ℕ, ◌*◌, ◌/◌, ◌^◌, Bool, true, false, not, ◌&&◌, ◌||◌, List, [], ◌∷◌, ◌++◌, Option, none, some,
  ltb, leb, ◌==◌, is_empty, if◌then◌else◌, Result, ok, err, ok_or, ◌>>=◌, ◌>>◌, refuse_if, Text,
  codes, text_eq, byte_len,
}
use free_whisper.Prelude.Str.{ends_with}
use free_whisper.Providers.Error.{ProviderError, insecure_endpoint, protocol, unavailable}

pub data Host : Type 0 where
  domain : (name : Text) → Host
  ipv4 ipv6 : (address : ℕ) → Host

pub record Url : Type 0 where
  pub scheme : Text
  pub username : Text
  pub password : Option Text
  pub host : Option Host
  pub path : Text
  pub query : Option Text
  pub fragment : Option Text

-- `Ipv4Addr::is_loopback`, 127.0.0.0/8, and `Ipv6Addr::is_loopback`, ::1.
unfoldable pub is_loopback : Host → Bool
unfolding text_eq
is_loopback (domain name) = text_eq name (codes "localhost")
is_loopback (ipv4 address) = address / 2 ^ 24 == 127
is_loopback (ipv6 address) = address == 1

unfoldable pub endpoint_is_loopback : Option Host → Bool
unfolding is_loopback
endpoint_is_loopback none = false
endpoint_is_loopback (some host) = is_loopback host

unfoldable pub is_present : Option Text → Bool
is_present none = false
is_present (some text) = true

unfoldable pub validate_endpoint :
    Url → (allow_insecure_loopback_development : Bool) → Result ProviderError (Unit {0})
unfolding endpoint_is_loopback is_present text_eq
validate_endpoint endpoint allow_insecure_loopback_development =
    refuse_if
      (not (is_empty endpoint.username)
        || is_present endpoint.password
        || is_present endpoint.query
        || is_present endpoint.fragment)
      insecure_endpoint
    >> refuse_if
        (not (
          text_eq endpoint.scheme (codes "https")
          || (text_eq endpoint.scheme (codes "http")
              && (allow_insecure_loopback_development && endpoint_is_loopback endpoint.host))))
        insecure_endpoint

-- The path ends with a slash, so that `join` keeps its last segment.
unfoldable pub with_slash : Url → Url
unfolding ends_with
with_slash endpoint =
    if ends_with endpoint.path (codes "/")
    then endpoint
    else record endpoint { path = endpoint.path ++ codes "/" }

pub record RemoteWorkerProvider : Type 0 where
  pub endpoint : Url
  pub authorization : Text

-- `parse_url` is `Url::parse`, `is_header_value` the test of `HeaderValue::from_str`, and `builds`
-- whether the HTTP client could be built.
unfoldable pub new_with_timeouts :
    (parse_url : Text → Option Url) (is_header_value : Text → Bool) (builds : Bool)
    → (endpoint bearer_token : Text) (allow_insecure_loopback_development : Bool)
    → (connect_timeout request_timeout : ℕ) → Result ProviderError RemoteWorkerProvider
unfolding validate_endpoint with_slash byte_len
new_with_timeouts parse_url is_header_value builds endpoint bearer_token allow connect_timeout
      request_timeout =
    do
      refuse_if (not (leb 1000 connect_timeout && leb connect_timeout 60000)) protocol
      refuse_if (not (leb 5000 request_timeout && leb request_timeout 600000)) protocol
      url ← ok_or (parse_url endpoint) insecure_endpoint
      validate_endpoint url allow
      refuse_if (ltb (byte_len bearer_token) 16 || ltb 512 (byte_len bearer_token)) protocol
      refuse_if (not (is_header_value (codes "Bearer " ++ bearer_token))) protocol
      refuse_if (not builds) unavailable
      ok (record { endpoint = with_slash url; authorization = codes "Bearer " ++ bearer_token })

-- `RemoteWorkerProvider::new`.
unfoldable pub new :
    (parse_url : Text → Option Url) (is_header_value : Text → Bool) (builds : Bool)
    → (endpoint bearer_token : Text) (allow_insecure_loopback_development : Bool)
    → Result ProviderError RemoteWorkerProvider
unfolding new_with_timeouts
new parse_url is_header_value builds endpoint bearer_token allow =
    new_with_timeouts parse_url is_header_value builds endpoint bearer_token allow 5000 600000
