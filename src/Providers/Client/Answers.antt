-- ===== src/Providers/Client/Answers.antt =====
-- crates/providers/src/lib.rs and apps/worker/src/lib.rs: what the client makes of an answer.
use free_whisper.Prelude.{
  ℕ, ◌≤◌, ◌<◌, ◌≡◌, ◌∙◌, refl, ap, arith, inl, inr, true, false, not, ◌&&◌, ltb, leb, ◌==◌, List,
  Option, none, some, find?, find?_mem, find?_sound, Memᴰ, Bool-cases, ok, err, ok_or, ok_or-eq-ok,
  ok_eq, ◌>>=◌, ◌>>◌, >>=-eq-ok, refuse_if-eq-ok, Text, text_eq, text_eq_iff,
}
use free_whisper.Providers.Error.{protocol}
use free_whisper.Providers.Client.{
  ModelInfo, Response, validate_api_version, parse_error, parse_response, read_models, list_models,
  check_ready, ensure_model_ready,
}

-- A response of version 1 that says success.
pub record IsAnswer {A : Type 0} (response : Response A) (value : A) : Type 0 where
  pub success : (200 ≤ response.status) × (response.status < 300)
  pub versioned : response.body ≡ some (1, value)

status_is_success : (n : ℕ) → (leb 200 n && ltb n 300) ≡ true → (200 ≤ n) × (n < 300)
status_is_success n h = (ground arith, ground arith)

validate_api_version_one : (n : ℕ) {u : Unit {0}} → validate_api_version n ≡ ok u → n ≡ 1
unfolding validate_api_version
validate_api_version_one n h = ground (arith, refuse_if-eq-ok (not (n == 1)) protocol h)

pair_eq : {A : Type 0} (p q : ℕ × A) → p.0 ≡ q.0 → p.1 ≡ q.1 → p ≡ q
pair_eq p q e f = λ i. (e i, f i)

module _ {A : Type 0} where
  parse_response-IsAnswer :
      (answer : Option (Response A)) (value : A)
      → parse_response answer ≡ ok value
      → (response : Response A) × (answer ≡ some response) × IsAnswer response value
  unfolding parse_response
  parse_response-IsAnswer none value h = cc
  parse_response-IsAnswer (some response) value h =
      elim (Bool-cases (leb 200 response.status && ltb response.status 300)) [
        | inr e ↦
            (let h' : err (parse_error response.status response.error) ≡ ok value = rw e at h in cc)
        | inl e ↦
            let h' : (ok_or response.body protocol >>= λ parsed.
            validate_api_version parsed.0 >> ok parsed.1)
                ≡ ok value =
              rw e at h in
            let (parsed, read, h) = >>=-eq-ok (ok_or response.body protocol) _ h' in
            let (u, version, h) = >>=-eq-ok (validate_api_version parsed.0) _ h in
            (
              response,
              refl,
              record {
                success = status_is_success response.status e;
                versioned =
                    ok_or-eq-ok _ _ read
                    ∙ ap some
                        (pair_eq parsed (1, value) (validate_api_version_one _ version) (ok_eq h));
              },
            )
      ]

check_ready_sound :
    (model : Text) (o : Option ModelInfo) {u : Unit {0}}
    → check_ready model o ≡ ok u
    → (candidate : ModelInfo) × (o ≡ some candidate)
      × (candidate.installed ≡ true)
      × (candidate.ready ≡ true)
unfolding check_ready
check_ready_sound model none h = cc
check_ready_sound model (some candidate) h =
    let e : not (candidate.installed && candidate.ready) ≡ false = refuse_if-eq-ok _ _ h in
    (candidate, refl, ground arith, ground arith)

-- Where the client finds a model ready, the worker answered with success and version 1, and among
-- the models of that answer, with their ids read, is one of that id, installed and ready.
pub ensure_model_ready_sound :
    (model : Text) (answer : Option (Response (List ModelInfo)))
    → ensure_model_ready model answer ≡ ok tt
    → (response : Response (List ModelInfo)) × (listed : List ModelInfo) × (models : List ModelInfo)
      × (candidate : ModelInfo) × (answer ≡ some response)
      × IsAnswer response listed
      × (read_models listed ≡ ok models)
      × Memᴰ candidate models
      × (candidate.id ≡ model)
      × (candidate.installed ≡ true)
      × (candidate.ready ≡ true)
unfolding ensure_model_ready list_models
ensure_model_ready_sound model answer h =
    let (models, listing, h) = >>=-eq-ok (parse_response answer >>= read_models) _ h in
    let (listed, answered, read) = >>=-eq-ok (parse_response answer) _ listing in
    let (response, is_response, is_answer) = parse_response-IsAnswer answer listed answered in
    let (candidate, found, here, ready) =
      check_ready_sound model (find? (λ candidate. text_eq candidate.id model) models) h in
    (
      response,
      listed,
      models,
      candidate,
      is_response,
      is_answer,
      read,
      find?_mem _ models candidate found,
      (text_eq_iff _ _).0 (find?_sound _ models candidate found),
      here,
      ready,
    )
