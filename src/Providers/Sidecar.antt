-- ===== src/Providers/Sidecar.antt =====
-- crates/providers/src/lib.rs: `parse_worker_build_info`, `read_bound_address`, and the choice
-- between a worker that runs and one to be started.
use free_whisper.Prelude.{
  ℕ, Bool, false, not, ◌&&◌, ◌||◌, List, [], ◌∷◌, ◌++◌, Option, none, some, ◌==◌, drop,
  if◌then◌else◌, Result, ok, ok_or, ◌>>=◌, ◌>>◌, refuse_if, Text, codes, text_eq,
}
use free_whisper.Prelude.Str.{trim, starts_with}
use free_whisper.Providers.Error.{ProviderError, sidecar_outdated, protocol, unavailable}
use free_whisper.Providers.Endpoint.{Host, is_loopback}

-- `str::split('|')`, with the field that is being read.
unfoldable pub split_bar : (begun : Text) → Text → List Text
split_bar begun [] = begun ∷ []
split_bar begun (c ∷ t) =
    let rest = split_bar (if c == b'|' then [] else begun ++ c ∷ []) t in
    if c == b'|' then begun ∷ rest else rest

-- `parse_u16` is `str::parse`.
unfoldable pub build_info_matches :
    (parse_u16 : Text → Option ℕ) (expected_version : Text) → List Text → Bool
unfolding text_eq
build_info_matches parse_u16 expected_version (prefix ∷ version ∷ api_version ∷ adapter ∷ []) =
    text_eq prefix (codes "free-whisper-worker")
    && (text_eq version expected_version
        && (elim (parse_u16 api_version) [ none ↦ false | some n ↦ n == 1 ]
            && text_eq adapter (codes "whispercpp-v1.8.6-verbose-json-start-end")))
build_info_matches parse_u16 expected_version _ = false

unfoldable pub parse_worker_build_info :
    (parse_u16 : Text → Option ℕ) (output expected_version : Text) → Result ProviderError (Unit {0})
unfolding split_bar build_info_matches trim
parse_worker_build_info parse_u16 output expected_version =
    refuse_if (not (build_info_matches parse_u16 expected_version (split_bar [] (trim output))))
      sidecar_outdated

pub record SocketAddr : Type 0 where
  pub ip : Host
  pub port : ℕ

-- The worker's first line, none where reading failed; `parse_address` is `str::parse`.
unfoldable pub read_bound_address :
    (parse_address : Text → Option SocketAddr) (line : Option Text)
    → Result ProviderError SocketAddr
unfolding starts_with trim is_loopback
read_bound_address parse_address line = do
  text ← ok_or line unavailable
  refuse_if (not (starts_with text (codes "FREE_WHISPER_BOUND "))) protocol
  address ← ok_or (parse_address (trim (drop 19 text))) protocol
  refuse_if (not (is_loopback address.ip) || (address.port == 0)) protocol
  ok address
