-- ===== src/Worker/Service/Fits.antt =====
-- Who has the permit, and that the map has the registrations: what holds of each transcription.
use free_whisper.Prelude.{
  ℕ, ◌≡◌, ◌≢◌, refl, sym, subst, ap, ◌∙◌, inl, inr, Bool, true, false, List, [], ◌∷◌, ◌==◌, ==_self,
  arith, Option, none, some, ok, err, Bool-cases, if◌then◌else◌,
}
use free_whisper.Worker.Service.{
  WorkerState, another_is_active, Running, TranscribePhase, reading, registering, running, dropping,
  unregistering, refusing, lookup, remove, is_some, acquire_request, Worker, set,
}

-- With the permit.
abbrev pub holds : {A : Type 0} → TranscribePhase A → Bool
holds reading = true
holds (registering request_id) = true
holds (running r) = true
holds (dropping r) = true
holds (refusing e) = true
holds _ = false

-- The registration that is to be dropped.
abbrev pub entry : {A : Type 0} → TranscribePhase A → Option Running
entry (running r) = some r
entry (dropping r) = some r
entry (unregistering r) = some r
entry _ = none

-- What holds of transcription `t` in the phase `p`, where `owner` has the permit and `who k` has
-- registered `k`.
pub record Fits {A : Type 0} (owner : ℕ) (who : ℕ → ℕ) (permit_free : Bool) (active : List (ℕ × ℕ))
    (t : ℕ) (p : TranscribePhase A) : Type 0 where
  pub has_permit : holds p ≡ true → (t ≡ owner) × (permit_free ≡ false)
  pub registered :
      (r : Running)
      → entry p ≡ some r
      → (t ≡ who r.request_id) × (is_some (lookup active r.request_id) ≡ true)
  pub own_token :
      (r : Running) → entry p ≡ some r → holds p ≡ true → lookup active r.request_id ≡ some r.token

pub record Inv {A : Type 0} (worker : Worker A) : Type 0 where
  pub owner : ℕ
  pub who : ℕ → ℕ
  pub fits :
      (t : ℕ)
      → Fits owner who worker.state.permit_free worker.state.active t (worker.transcriptions t)

pub some_eq {ℓ} : {A : Type ℓ} {a b : A} → some a ≡ some b → a ≡ b
some_eq {A} {a} e = ap {B = A} (λ o. elim o [ none ↦ a | some x ↦ x ]) e

pub false≢true : ◌≡◌ {A = Bool} false true → ⊥
false≢true p = cc

pub lookup-remove-other :
    (active : List (ℕ × ℕ)) (id k : ℕ)
    → (id == k) ≡ false
    → lookup (remove id active) k ≡ lookup active k
unfolding lookup remove
lookup-remove-other [] id k h = refl
lookup-remove-other ((a, token) ∷ active) id k h = elim (Bool-cases (a == id)) [
  | inl e ↦ elim (Bool-cases (a == k)) [
    | inl f ↦ ground (arith, e, f, h)
    | inr f ↦ rw (e, f) (lookup-remove-other active id k h)
  ]
  | inr e ↦ elim (Bool-cases (a == k)) [
    | inl f ↦ rw (e, f) refl
    | inr f ↦ rw (e, f) (lookup-remove-other active id k h)
  ]
]

pub lookup-put :
    (active : List (ℕ × ℕ)) (id token : ℕ) → lookup ((id, token) ∷ remove id active) id ≡ some token
unfolding lookup
lookup-put active id token = rw (==_self id) refl

pub put_keeps :
    (active : List (ℕ × ℕ)) (id token k : ℕ)
    → is_some (lookup active k) ≡ true
    → is_some (lookup ((id, token) ∷ remove id active) k) ≡ true
unfolding lookup
put_keeps active id token k h = elim (Bool-cases (id == k)) [
  | inl e ↦ rw e refl
  | inr e ↦ rw (e, lookup-remove-other active id k e) h
]

pub acquire_free :
    (state : WorkerState)
    → state.permit_free ≡ true
    → acquire_request state ≡ (record state { permit_free = false }, ok tt)
unfolding acquire_request
acquire_free state free =
    ap
      (λ b.
        if b then (record state { permit_free = false }, ok tt) else (state, err another_is_active))
      free

pub acquire_taken :
    (state : WorkerState)
    → state.permit_free ≡ false
    → acquire_request state ≡ (state, err another_is_active)
unfolding acquire_request
acquire_taken state taken =
    ap
      (λ b.
        if b then (record state { permit_free = false }, ok tt) else (state, err another_is_active))
      taken

module _ {A : Type 0} where
  -- A phase with neither permit nor registration.
  pub plain :
      (owner : ℕ) (who : ℕ → ℕ) (free : Bool) (active : List (ℕ × ℕ)) (t : ℕ)
      (p : TranscribePhase A)
      → holds p ≡ false
      → entry p ≡ none
      → Fits owner who free active t p
  plain owner who free active t p h e = record {
    has_permit = λ x. ground (arith, x, h);
    registered = λ r x. ground (arith, x, e);
    own_token = λ r x y. ground (arith, x, e);
  }

  -- The phase changes without the permit or the registration.
  pub same :
      (owner : ℕ) (who : ℕ → ℕ) (free : Bool) (active : List (ℕ × ℕ)) (t : ℕ)
      (p q : TranscribePhase A)
      → holds q ≡ holds p
      → entry q ≡ entry p
      → Fits owner who free active t p
      → Fits owner who free active t q
  same owner who free active t p q h e f = record {
    has_permit = λ x. f.has_permit (sym h ∙ x);
    registered = λ r x. f.registered r (sym e ∙ x);
    own_token = λ r x y. f.own_token r (sym e ∙ x) (sym h ∙ y);
  }

  -- The step of `n` gives `n` a phase that fits, and leaves the others fit.
  pub update :
      (worker : Worker A) (state : WorkerState) (n : ℕ) (p : TranscribePhase A) (owner : ℕ)
      (who : ℕ → ℕ)
      → Fits owner who state.permit_free state.active n p
      → ((t : ℕ)
          → t ≢ n
          → Fits owner who state.permit_free state.active t (worker.transcriptions t))
      → Inv (record worker { state = state; transcriptions = set n p worker.transcriptions })
  update worker state n p owner who mine others = record {
    owner = owner;
    who = who;
    fits = λ t. elim (Bool-cases (t == n)) [
      | inl e ↦ rw e (
          subst (λ k. Fits owner who state.permit_free state.active k p) (sym (ground (arith, e)))
            mine)
      | inr e ↦ rw e (others t (ground (arith, e)))
    ];
  }

  -- `q` has nothing that `p` had not, and the state has the permit and the map as they were.
  pub quiet :
      (worker : Worker A) (state : WorkerState) (n : ℕ) (q : TranscribePhase A)
      → state.permit_free ≡ worker.state.permit_free
      → state.active ≡ worker.state.active
      → Inv worker
      → ((owner : ℕ) (who : ℕ → ℕ)
          → Fits owner who worker.state.permit_free worker.state.active n (worker.transcriptions n)
          → Fits owner who worker.state.permit_free worker.state.active n q)
      → Inv (record worker { state = state; transcriptions = set n q worker.transcriptions })
  quiet worker state n q permit active v f =
      update worker state n q v.owner v.who (rw (permit, active) (f v.owner v.who (v.fits n)))
        (λ t other. rw (permit, active) (v.fits t))
