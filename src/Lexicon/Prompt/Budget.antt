-- ===== src/Lexicon/Prompt/Budget.antt =====
-- The selected terms keep within both limits, and nothing that fits is left out.
use free_whisper.Prelude.{
  ℕ, ◌+◌, ◌≤◌, ◌<◌, ◌≡◌, refl, ◌⊎◌, inl, inr, Bool, true, false, ◌||◌, List, [], ◌∷◌, ◌++◌, Option,
  arith, All, All-append, All-imp, All-Mem, All-zip, All-filter, All-filter_test, All-filter_back,
  Bool-cases, Memᴰ, subst, sym, ltb, ◌==◌, length, length-append, sort_by, sort_by-All,
  sort_by-All_back, Text, filter,
}
use free_whisper.Lexicon.Entry.{LexiconEntry}
use free_whisper.Lexicon.Prompt.{
  PromptSelection, max_prompt_terms, max_prompt_tokens, saturating_add, estimate_tokens, entry_le,
  is_candidate, pick, select_prompt_terms,
}

-- The tokens of a list of terms.
unfoldable pub total_tokens : List Text → ℕ
total_tokens [] = 0
total_tokens (t ∷ ts) = estimate_tokens t + total_tokens ts

total_tokens-append :
    (ts us : List Text) → total_tokens (ts ++ us) ≡ total_tokens ts + total_tokens us
unfolding total_tokens
total_tokens-append [] us = omega arith
total_tokens-append (t ∷ ts) us = omega (arith, total_tokens-append ts us)

abbrev skips : List Text → ℕ → LexiconEntry → Bool
skips terms tokens entry =
    length terms == max_prompt_terms
    || ltb max_prompt_tokens (saturating_add tokens (estimate_tokens entry.canonical_text))

-- What holds of the terms and the tokens between two rounds.
record Inv (P : Text → Type 0) (terms : List Text) (tokens : ℕ) : Type 0 where
  few : length terms ≤ 32
  short : tokens ≤ 128
  counted : tokens ≡ total_tokens terms
  origin : All P terms

step-Inv :
    {P : Text → Type 0} (terms : List Text) (tokens : ℕ) (entry : LexiconEntry)
    → skips terms tokens entry ≡ false
    → P entry.canonical_text
    → Inv P terms tokens
    → Inv P (terms ++ entry.canonical_text ∷ []) (tokens + estimate_tokens entry.canonical_text)
unfolding saturating_add
step-Inv {P} terms tokens entry fits p v = record {
  few = ground (arith, v.few, length-append terms (entry.canonical_text ∷ []));
  short = ground (arith, v.short);
  counted = omega (arith, v.counted, total_tokens-append terms (entry.canonical_text ∷ []), one);
  origin = All-append P terms (entry.canonical_text ∷ []) v.origin (p, tt);
}
  where
    one : total_tokens (entry.canonical_text ∷ []) ≡ estimate_tokens entry.canonical_text
    one = unfold total_tokens in omega arith

pick-Inv :
    {P : Text → Type 0} (terms : List Text) (tokens : ℕ) (es : List LexiconEntry)
    → All (λ e. P e.canonical_text) es
    → Inv P terms tokens
    → Inv P (pick terms tokens es).terms (pick terms tokens es).estimated_tokens
unfolding pick
pick-Inv terms tokens [] h v = v
pick-Inv terms tokens (e ∷ es) h v = elim (Bool-cases (skips terms tokens e)) [
  | inl s ↦ rw (s, pick) (pick-Inv terms tokens es h.1 v)
  | inr s ↦
      rw (s, pick)
        (pick-Inv (terms ++ e.canonical_text ∷ []) (tokens + estimate_tokens e.canonical_text) es
          h.1 (step-Inv terms tokens e s h.0 v))
]

Mem-append {ℓ} : {A : Type ℓ} (x : A) (xs ys : List A) → Memᴰ x xs ⊎ Memᴰ x ys → Memᴰ x (xs ++ ys)
Mem-append x [] ys (inr m) = m
Mem-append x [] ys (inl m) = elim m [ ]
Mem-append x (y ∷ xs) ys (inr m) = Memᴰ.tail (Mem-append x xs ys (inr m))
Mem-append x (y ∷ xs) ys (inl (Memᴰ.head e)) = Memᴰ.head e
Mem-append x (y ∷ xs) ys (inl (Memᴰ.tail m)) = Memᴰ.tail (Mem-append x xs ys (inl m))

-- Later rounds keep the terms, and use no less.
record Grows (terms : List Text) (tokens : ℕ) (s : PromptSelection) : Type 0 where
  keeps : (t : Text) → Memᴰ t terms → Memᴰ t s.terms
  more_terms : length terms ≤ length s.terms
  more_tokens : tokens ≤ s.estimated_tokens

pick-Grows :
    (terms : List Text) (tokens : ℕ) (es : List LexiconEntry)
    → Grows terms tokens (pick terms tokens es)
unfolding pick
pick-Grows terms tokens [] = record {
  keeps = λ t m. m;
  more_terms = omega arith;
  more_tokens = omega arith;
}
pick-Grows terms tokens (e ∷ es) = elim (Bool-cases (skips terms tokens e)) [
  | inl s ↦ rw (s, pick) (pick-Grows terms tokens es)
  | inr s ↦
      let later =
        pick-Grows (terms ++ e.canonical_text ∷ []) (tokens + estimate_tokens e.canonical_text)
          es in
      let one = length-append terms (e.canonical_text ∷ []) in
      rw (s, pick)
        (record {
          keeps = λ t m. later.keeps t (Mem-append t terms (e.canonical_text ∷ []) (inl m));
          more_terms = omega (arith, later.more_terms, one);
          more_tokens = omega (arith, later.more_tokens);
        })
]

-- An entry is taken, or the terms have run out, or its tokens no longer fit.
abbrev pub IsServed : PromptSelection → LexiconEntry → Type 0
IsServed s e =
    Memᴰ e.canonical_text s.terms
    ⊎ (length s.terms ≡ 32)
    ⊎ (128 < s.estimated_tokens + estimate_tokens e.canonical_text)

skipped-IsServed :
    (terms : List Text) (tokens : ℕ) (e : LexiconEntry) (s : PromptSelection)
    → skips terms tokens e ≡ true
    → length s.terms ≤ 32
    → Grows terms tokens s
    → IsServed s e
unfolding saturating_add
skipped-IsServed terms tokens e s skip few g = ground (arith, g.more_terms, g.more_tokens)

pick_skip :
    (terms : List Text) (tokens : ℕ) (e : LexiconEntry) (es : List LexiconEntry)
    → skips terms tokens e ≡ true
    → pick terms tokens (e ∷ es) ≡ pick terms tokens es
unfolding pick
pick_skip terms tokens e es s = rw (s, pick)

pick_take :
    (terms : List Text) (tokens : ℕ) (e : LexiconEntry) (es : List LexiconEntry)
    → skips terms tokens e ≡ false
    → pick terms tokens (e ∷ es)
      ≡ pick (terms ++ e.canonical_text ∷ []) (tokens + estimate_tokens e.canonical_text) es
unfolding pick
pick_take terms tokens e es s = rw (s, pick)

pick-IsServed :
    (terms : List Text) (tokens : ℕ) (es : List LexiconEntry)
    → length (pick terms tokens es).terms ≤ 32
    → All (IsServed (pick terms tokens es)) es
pick-IsServed terms tokens [] few = tt
pick-IsServed terms tokens (e ∷ es) few = elim (Bool-cases (skips terms tokens e)) [
  | inl s ↦
      let same = pick_skip terms tokens e es s in
      let few' = subst (λ s. length s.terms ≤ 32) same few in
      subst (λ s. All (IsServed s) (e ∷ es)) (sym same)
        (
          skipped-IsServed terms tokens e (pick terms tokens es) s few'
              (pick-Grows terms tokens es),
          pick-IsServed terms tokens es few',
        )
  | inr s ↦
      let terms' = terms ++ e.canonical_text ∷ [] in
      let tokens' = tokens + estimate_tokens e.canonical_text in
      let same = pick_take terms tokens e es s in
      let few' = subst (λ s. length s.terms ≤ 32) same few in
      let new_term =
        Mem-append e.canonical_text terms (e.canonical_text ∷ []) (inr (Memᴰ.head refl)) in
      subst (λ s. All (IsServed s) (e ∷ es)) (sym same)
        (
          inl ((pick-Grows terms' tokens' es).keeps e.canonical_text new_term),
          pick-IsServed terms' tokens' es few',
        )
]

-- The term is the text of an entry of the lexicon that is enabled and in scope.
abbrev pub IsEligible : List LexiconEntry → Option ℕ → Text → Type 0
IsEligible entries active_profile term =
    (e : LexiconEntry) × Memᴰ e entries
    × (is_candidate active_profile e ≡ true)
    × (term ≡ e.canonical_text)

eligible :
    (entries : List LexiconEntry) (active_profile : Option ℕ)
    → All
        (λ e. IsEligible entries active_profile e.canonical_text)
        (sort_by entry_le (filter (is_candidate active_profile) entries))
eligible entries active_profile = sort_by-All entry_le _ _ (
    All-imp _ _ _ (λ e h. (e, h.0, h.1, refl))
      (All-zip (λ e. Memᴰ e entries) (λ e. is_candidate active_profile e ≡ true) _
        (All-filter (λ e. Memᴰ e entries) (is_candidate active_profile) entries (All-Mem entries))
        (All-filter_test (is_candidate active_profile) entries)))

-- The selection has at most 32 terms and at most 128 tokens, the tokens are those of its terms,
-- and each term is the text of an enabled entry in scope.
pub select_prompt_terms_bounds :
    (entries : List LexiconEntry) (active_profile : Option ℕ)
    → let s = select_prompt_terms entries active_profile in
      (length s.terms ≤ 32)
      × (s.estimated_tokens ≤ 128)
      × (s.estimated_tokens ≡ total_tokens s.terms)
      × All (IsEligible entries active_profile) s.terms
unfolding select_prompt_terms
select_prompt_terms_bounds entries active_profile =
    let v =
      pick-Inv {P = IsEligible entries active_profile} [] 0 _ (eligible entries active_profile)
        (record {
          few = omega arith;
          short = omega arith;
          counted = unfold total_tokens in refl;
          origin = tt;
        }) in
    (v.few, v.short, v.counted, v.origin)

-- No enabled entry in scope is left out without need: its text is among the terms, or there are
-- 32 terms already, or its tokens would take the selection past 128.
pub select_prompt_terms_maximal :
    (entries : List LexiconEntry) (active_profile : Option ℕ)
    → All
        (λ e.
          is_candidate active_profile e ≡ true
          → IsServed (select_prompt_terms entries active_profile) e)
        entries
unfolding select_prompt_terms
select_prompt_terms_maximal entries active_profile =
    All-filter_back _ (is_candidate active_profile) entries (
      sort_by-All_back entry_le _ _ (
        pick-IsServed [] 0 _
          (unfold select_prompt_terms in (select_prompt_terms_bounds entries active_profile).0)))
