-- ===== src/Worker/Limiter/Window.antt =====
-- The deque against its contract: a sliding window over the admitted requests.
use free_whisper.Prelude.{
  ℕ, ◌-◌, ◌≤◌, ◌<◌, ◌≡◌, refl, sym, ap, ◌∙◌, ◌⊎◌, inl, inr, Bool, List, [], ◌∷◌, ◌++◌, arith, All,
  All-append, All-imp, filter, leb, ltb, if◌then◌else◌, length, length-append, Bool-cases, ok, err,
}
use free_whisper.Worker.Limiter.{minute, pop_expired, too_many, check_rate_limit, run}

-- Whether an instant lies within the minute before `now`.
abbrev pub is_recent : (now : ℕ) → ℕ → Bool
is_recent now t = ltb (now - t) minute

-- Instants that do not decrease, from `low` on.
abbrev pub Rising : (low : ℕ) → List ℕ → Type 0
Rising low [] = Unit {0}
Rising low (t ∷ ts) = (low ≤ t) × Rising t ts

Rising-lower : (low low' : ℕ) (ts : List ℕ) → low' ≤ low → Rising low ts → Rising low' ts
Rising-lower low low' [] h r = tt
Rising-lower low low' (t ∷ ts) h r = (omega arith, r.1)

filter_all :
    (now low : ℕ) (ts : List ℕ)
    → now - low < minute
    → Rising low ts
    → filter (is_recent now) ts ≡ ts
filter_all now low [] h r = refl
filter_all now low (t ∷ ts) h r = ground (arith, filter_all now t ts (omega arith) r.1)

-- On instants in order the loop keeps exactly the recent ones.
pop_expired-filter :
    (now low : ℕ) (ts : List ℕ) → Rising low ts → pop_expired now ts ≡ filter (is_recent now) ts
unfolding pop_expired
pop_expired-filter now low [] r = refl
pop_expired-filter now low (t ∷ ts) r = elim (Bool-cases (leb minute (now - t))) [
  | inl old ↦ ground (arith, old, pop_expired-filter now t ts r.1)
  | inr new ↦ ground (arith, new, filter_all now t ts (ground arith) r.1)
]

filter-filter :
    (last now : ℕ) (ts : List ℕ)
    → last ≤ now
    → filter (is_recent now) (filter (is_recent last) ts) ≡ filter (is_recent now) ts
filter-filter last now [] h = refl
filter-filter last now (t ∷ ts) h = ground (arith, filter-filter last now ts h)

filter-append :
    (now : ℕ) (ts us : List ℕ)
    → filter (is_recent now) (ts ++ us) ≡ filter (is_recent now) ts ++ filter (is_recent now) us
filter-append now [] us = refl
filter-append now (t ∷ ts) us = ground (arith, filter-append now ts us)

Rising-filter : (low now : ℕ) (ts : List ℕ) → Rising low ts → Rising low (filter (is_recent now) ts)
Rising-filter low now [] r = tt
Rising-filter low now (t ∷ ts) r =
    let rest = Rising-filter t now ts r.1 in
    ground (arith, rest, Rising-lower t low (filter (is_recent now) ts))

Rising-snoc :
    (low now : ℕ) (ts : List ℕ)
    → Rising low ts
    → All (λ t. t ≤ now) ts
    → low ≤ now
    → Rising low (ts ++ now ∷ [])
Rising-snoc low now [] r b h = (h, tt)
Rising-snoc low now (t ∷ ts) r b h = (r.0, Rising-snoc t now ts r.1 b.1 b.0)

-- What holds after a call at `last`.
pub record Inv (last : ℕ) (timestamps accepted : List ℕ) : Type 0 where
  pub window : timestamps ≡ filter (is_recent last) accepted
  pub rising : Rising 0 accepted
  pub past : All (λ t. t ≤ last) accepted
  pub few : length timestamps ≤ 20

module _ (last now : ℕ) (timestamps accepted : List ℕ) (v : Inv last timestamps accepted)
    (later : last ≤ now) where
  window_now : pop_expired now timestamps ≡ filter (is_recent now) accepted
  window_now =
      ap (pop_expired now) v.window
      ∙ pop_expired-filter now 0 (filter (is_recent last) accepted)
          (Rising-filter 0 last accepted v.rising)
      ∙ filter-filter last now accepted later

  -- A call is admitted exactly when the minute before it holds fewer than 20 admitted requests.
  check_cases :
      ((20 ≤ length (filter (is_recent now) accepted))
        × (check_rate_limit timestamps now ≡ (filter (is_recent now) accepted, err too_many)))
      ⊎ ((length (filter (is_recent now) accepted) < 20)
          × (check_rate_limit timestamps now
              ≡ (filter (is_recent now) accepted ++ now ∷ [], ok tt)))
  unfolding check_rate_limit
  check_cases = ground (arith, window_now)

  past_now : All (λ t. t ≤ now) accepted
  past_now = All-imp _ _ accepted (λ t h. omega arith) v.past

  refused-Inv :
      20 ≤ length (filter (is_recent now) accepted)
      → length (filter (is_recent now) accepted) ≤ 20
      → Inv now (filter (is_recent now) accepted) accepted
  refused-Inv full few = record { window = refl; rising = v.rising; past = past_now; few = few }

  admitted-Inv :
      length (filter (is_recent now) accepted) < 20
      → Inv now (filter (is_recent now) accepted ++ now ∷ []) (accepted ++ now ∷ [])
  admitted-Inv room = record {
    window =
        ap (λ ts. filter (is_recent now) accepted ++ ts) (ground arith)
        ∙ sym (filter-append now accepted (now ∷ []));
    rising = Rising-snoc 0 now accepted v.rising past_now (omega arith);
    past = All-append (λ t. t ≤ now) accepted (now ∷ []) past_now (omega arith, tt);
    few = omega (arith, length-append (filter (is_recent now) accepted) (now ∷ []));
  }

  -- The window only shrinks as time passes.
  shrinks : length (filter (is_recent now) accepted) ≤ 20
  shrinks = omega (arith, v.few, ap length v.window, filter_shorter accepted)
    where
      filter_shorter :
          (ts : List ℕ) → length (filter (is_recent now) ts) ≤ length (filter (is_recent last) ts)
      filter_shorter [] = omega arith
      filter_shorter (t ∷ ts) = ground (arith, filter_shorter ts)

-- The time of the last call.
abbrev pub end : ℕ → List ℕ → ℕ
end last [] = last
end last (t ∷ ts) = end t ts

run-Inv :
    (last : ℕ) (timestamps accepted calls : List ℕ)
    → Inv last timestamps accepted
    → Rising last calls
    → Inv (end last calls) (run timestamps accepted calls).0 (run timestamps accepted calls).1
unfolding run
run-Inv last timestamps accepted [] v r = v
run-Inv last timestamps accepted (now ∷ later) v r =
    elim (check_cases last now timestamps accepted v r.0) [
      | inl (full, refused) ↦
          rw (refused, run)
            (run-Inv now _ accepted later
              (refused-Inv last now timestamps accepted v r.0 full
                (shrinks last now timestamps accepted v r.0))
              r.1)
      | inr (room, admitted) ↦
          rw (admitted, run)
            (run-Inv now _ (accepted ++ now ∷ []) later
              (admitted-Inv last now timestamps accepted v r.0 room) r.1)
    ]

start-Inv : Inv 0 [] []
start-Inv = record { window = refl; rising = tt; past = tt; few = omega arith }

-- A worker that has seen any calls at instants that do not decrease has admitted at most 20
-- requests in the minute up to its last call, and it admits a call at a later instant `now`
-- exactly when it has admitted fewer than 20 in the minute before `now`; otherwise it answers
-- with the rate-limit failure.
pub run_is_window :
    (calls : List ℕ) (now : ℕ)
    → Rising 0 calls
    → end 0 calls ≤ now
    → let (timestamps, accepted) = run [] [] calls in
      (length (filter (is_recent (end 0 calls)) accepted) ≤ 20)
      × ((check_rate_limit timestamps now).1
          ≡ (if ltb (length (filter (is_recent now) accepted)) 20 then ok tt else err too_many))
run_is_window calls now rising later =
    let v = run-Inv 0 [] [] calls start-Inv rising in
    let (timestamps, accepted) = run [] [] calls in
    (
      omega (arith, v.few, ap length v.window),
      elim (check_cases (end 0 calls) now timestamps accepted v later) [
        | inl (full, refused) ↦ rw refused (ground arith)
        | inr (room, admitted) ↦ rw admitted (ground arith)
      ],
    )
