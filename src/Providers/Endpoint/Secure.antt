-- ===== src/Providers/Endpoint/Secure.antt =====
-- crates/providers/src/lib.rs: where a client sends the token.
use free_whisper.Prelude.{
  ℕ, ◌≤◌, ◌≡◌, ◌⊎◌, refl, subst, arith, inl, inr, Bool, true, false, not, ◌&&◌, ◌||◌, [], ◌∷◌, ◌++◌,
  Option, none, some, ltb, leb, is_empty, Bool-cases, ok, ok_or, ok_eq, >>=-eq-ok, refuse_if,
  refuse_if-eq-ok, Text, codes, text_eq, text_eq_iff, byte_len,
}
use free_whisper.Prelude.Str.{ends_with}
use free_whisper.Providers.Error.{insecure_endpoint, protocol, unavailable}
use free_whisper.Providers.Endpoint.{
  Url, is_present, endpoint_is_loopback, validate_endpoint, with_slash, RemoteWorkerProvider,
  new_with_timeouts,
}

-- Over HTTPS, or over HTTP to this machine where that was asked for; and without credentials, a
-- query or a fragment.
pub record IsSecure (allow : Bool) (endpoint : Url) : Type 0 where
  pub protected :
      (endpoint.scheme ≡ codes "https")
      ⊎ ((endpoint.scheme ≡ codes "http")
          × (allow ≡ true)
          × (endpoint_is_loopback endpoint.host ≡ true))
  pub no_username : endpoint.username ≡ []
  pub no_password : endpoint.password ≡ none
  pub no_query : endpoint.query ≡ none
  pub no_fragment : endpoint.fragment ≡ none

absent : (o : Option Text) → is_present o ≡ false → o ≡ none
unfolding is_present
absent none h = refl
absent (some t) h = cc

unfilled : (t : Text) → not (is_empty t) ≡ false → t ≡ []
unfilled [] h = refl
unfilled (c ∷ t) h = cc

none_of :
    (a b c d : Bool)
    → (a || b || c || d) ≡ false
    → (a ≡ false) × (b ≡ false) × (c ≡ false) × (d ≡ false)
none_of a b c d h = ground arith

one_of :
    (a b c d : Bool)
    → not (a || (b && (c && d))) ≡ false
    → (a ≡ true) ⊎ ((b ≡ true) × (c ≡ true) × (d ≡ true))
one_of true b c d h = inl refl
one_of false true true true h = inr (refl, refl, refl)
one_of false true true false h = cc
one_of false true false d h = cc
one_of false false c d h = cc

validate_endpoint-IsSecure :
    (endpoint : Url) (allow : Bool) {u : Unit {0}}
    → validate_endpoint endpoint allow ≡ ok u
    → IsSecure allow endpoint
unfolding validate_endpoint
validate_endpoint-IsSecure endpoint allow h =
    let (a, bare, scheme) =
      >>=-eq-ok
        (refuse_if
          (not (is_empty endpoint.username)
            || is_present endpoint.password
            || is_present endpoint.query
            || is_present endpoint.fragment)
          insecure_endpoint)
        _ h in
    let (no_user, no_password, no_query, no_fragment) =
      none_of (not (is_empty endpoint.username)) (is_present endpoint.password)
        (is_present endpoint.query) (is_present endpoint.fragment) (refuse_if-eq-ok _ _ bare) in
    record {
      protected =
          elim (one_of (text_eq endpoint.scheme (codes "https"))
            (text_eq endpoint.scheme (codes "http")) allow (endpoint_is_loopback endpoint.host)
            (refuse_if-eq-ok _ _ scheme)) [
              | inl https ↦ inl ((text_eq_iff _ _).0 https)
              | inr (http, allowed, here) ↦ inr ((text_eq_iff _ _).0 http, allowed, here)
            ];
      no_username = unfilled _ no_user;
      no_password = absent _ no_password;
      no_query = absent _ no_query;
      no_fragment = absent _ no_fragment;
    }

with_slash-IsSecure :
    (allow : Bool) (endpoint : Url) → IsSecure allow endpoint → IsSecure allow (with_slash endpoint)
unfolding with_slash
with_slash-IsSecure allow endpoint h = elim (Bool-cases (ends_with endpoint.path (codes "/"))) [
  | inl e ↦ rw e h
  | inr e ↦ rw e (record {
    protected = h.protected;
    no_username = h.no_username;
    no_password = h.no_password;
    no_query = h.no_query;
    no_fragment = h.no_fragment;
  })
]

within : (n : ℕ) → (ltb n 16 || ltb 512 n) ≡ false → (16 ≤ n) × (n ≤ 512)
within n h = (ground arith, ground arith)

-- A client that was made sends its token, of 16 to 512 bytes, over HTTPS, or over HTTP to the same
-- machine where development asked for that, to an endpoint without credentials, query or fragment.
pub new_with_timeouts-IsSecure :
    (parse_url : Text → Option Url) (is_header_value : Text → Bool) (builds : Bool)
    → (endpoint bearer_token : Text) (allow : Bool)
    → (connect_timeout request_timeout : ℕ) (provider : RemoteWorkerProvider)
    → new_with_timeouts parse_url is_header_value builds endpoint bearer_token allow connect_timeout
        request_timeout
      ≡ ok provider
    → IsSecure allow provider.endpoint
      × (provider.authorization ≡ codes "Bearer " ++ bearer_token)
      × (16 ≤ byte_len bearer_token)
      × (byte_len bearer_token ≤ 512)
unfolding new_with_timeouts
new_with_timeouts-IsSecure parse_url is_header_value builds endpoint bearer_token allow
      connect_timeout request_timeout provider h =
    let (a, ta, h) =
      >>=-eq-ok (refuse_if (not (leb 1000 connect_timeout && leb connect_timeout 60000)) protocol) _
        h in
    let (b, tb, h) =
      >>=-eq-ok (refuse_if (not (leb 5000 request_timeout && leb request_timeout 600000)) protocol)
        _ h in
    let (url, parsed, h) = >>=-eq-ok (ok_or (parse_url endpoint) insecure_endpoint) _ h in
    let (c, valid, h) = >>=-eq-ok (validate_endpoint url allow) _ h in
    let (d, sized, h) =
      >>=-eq-ok
        (refuse_if (ltb (byte_len bearer_token) 16 || ltb 512 (byte_len bearer_token)) protocol) _
        h in
    let (e, header, h) =
      >>=-eq-ok (refuse_if (not (is_header_value (codes "Bearer " ++ bearer_token))) protocol) _
        h in
    let (f, built, h) = >>=-eq-ok (refuse_if (not builds) unavailable) _ h in
    let (long, short) = within (byte_len bearer_token) (refuse_if-eq-ok _ _ sized) in
    subst
      (λ p.
        IsSecure allow p.endpoint
        × (p.authorization ≡ codes "Bearer " ++ bearer_token)
        × (16 ≤ byte_len bearer_token)
        × (byte_len bearer_token ≤ 512))
      (ok_eq h)
      (
        with_slash-IsSecure allow url (validate_endpoint-IsSecure url allow valid),
        refl,
        long,
        short,
      )
