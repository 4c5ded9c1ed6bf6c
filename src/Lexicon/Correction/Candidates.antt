-- ===== src/Lexicon/Correction/Candidates.antt =====
-- Every candidate covers whole characters of the raw text, and at least one.
use free_whisper.Prelude.{
  ℕ, ◌+◌, ◌≤◌, ◌<◌, ◌≡◌, refl, sym, ap, ◌∙◌, ◌≢◌, List, [], ◌∷◌, ◌++◌, arith, All, All-map,
  All-filter, All-append, All-imp, find?, find?_sound, Bool, true, false, not, ◌||◌, Bool-cases,
  inl, inr, ◌==◌, leb, if◌then◌else◌, subst, ok_eq, find?_hit, find?_miss, ==_iff, ok, Text,
  len_utf8, byte_len, append_assoc, some, Option-cases, length,
}
use free_whisper.Prelude.Str.Offsets.{byte_len-append, byte_len_pos, IsMatch, match_indices-IsMatch}
use free_whisper.Lexicon.Entry.{
  Unicode, MatchMode, exact_casefold, exact_case_sensitive, LexiconVariant,
}
use free_whisper.Lexicon.Correction.{
  Candidate, CorrectionRule, FoldSpan, fold_from, locate, locate_all, find_all, locations,
  find_candidates, candidate_at, collect,
}

-- The bytes from `start` up to `end` are whole characters of the text, and at least one.
abbrev pub IsPiece : Text → (start end : ℕ) → Type 0
IsPiece t start end =
    (pre : Text) × (mid : Text) × (post : Text) × (t ≡ pre ++ (mid ++ post))
    × (mid ≢ [])
    × (start ≡ byte_len pre)
    × (end ≡ start + byte_len mid)

-- The needle of a variant is the text that its mode looks for.
abbrev pub needle_of : MatchMode → LexiconVariant → Text
needle_of exact_case_sensitive variant = variant.variant_text
needle_of exact_casefold variant = variant.variant_key

abbrev pub needle : LexiconVariant → Text
needle variant = needle_of variant.match_mode variant

match-IsPiece : (needle t : Text) (m : ℕ × ℕ) → needle ≢ [] → IsMatch needle t m → IsPiece t m.0 m.1
match-IsPiece needle t m ne (pre, post, e, s, f) = (pre, needle, post, e, ne, s, omega arith)

match_lt : (needle t : Text) (m : ℕ × ℕ) → needle ≢ [] → IsMatch needle t m → m.0 < m.1
match_lt needle t m ne (pre, post, e, s, f) = omega (arith, byte_len_pos needle ne)

All-if :
    (P : Candidate → Type 0) (skips : Bool) (cs : List Candidate)
    → All P cs
    → All P (if skips then [] else cs)
All-if P true cs h = tt
All-if P false cs h = h

module _ (u : Unicode) where
  -- A span that a search finds is that of one character, and lies after the folded start.
  span_found :
      (q : FoldSpan → Bool) (raw folded : ℕ) (t : Text) (p : FoldSpan)
      → find? q (fold_from u raw folded t).1 ≡ some p
      → (pre : Text) × (c : ℕ) × (post : Text) × (t ≡ pre ++ c ∷ post)
        × (p.raw_start ≡ raw + byte_len pre)
        × (p.raw_end ≡ raw + byte_len pre + len_utf8 c)
        × (folded ≤ p.folded_start)
  unfolding fold_from byte_len
  span_found q raw folded [] p h = cc
  span_found q raw folded (c ∷ t) p h =
      let folded_end = folded + byte_len (u.default_case_fold_str (c ∷ [])) in
      let head : FoldSpan = record {
        folded_start = folded;
        folded_end = folded_end;
        raw_start = raw;
        raw_end = raw + len_utf8 c;
      } in
      let (value, spans) = fold_from u (raw + len_utf8 c) folded_end t in
      elim (Bool-cases (q head)) [
        | inl here ↦
            let e = find?_hit q head p spans here h in
            let start = ap (λ span. span.raw_start) e in
            let end = ap (λ span. span.raw_end) e in
            let folds = ap (λ span. span.folded_start) e in
            ([], c, t, refl, omega (arith, start), omega (arith, end), omega (arith, folds))
        | inr later ↦
            let (pre, d, post, e, s, f, g) =
              span_found q (raw + len_utf8 c) folded_end t p (find?_miss q head p spans later h) in
            (c ∷ pre, d, post, ap (◌∷◌ c) e, omega arith, omega arith, omega arith)
      ]

  -- The first and the last span of a match that is not empty enclose a piece of the text.
  located-IsPiece :
      (raw folded : ℕ) (t : Text) (start end : ℕ) (first last : FoldSpan)
      → start < end
      → find? (λ span. span.folded_start == start) (fold_from u raw folded t).1 ≡ some first
      → find? (λ span. span.folded_end == end) (fold_from u raw folded t).1 ≡ some last
      → (pre : Text) × (mid : Text) × (post : Text) × (t ≡ pre ++ (mid ++ post))
        × (mid ≢ [])
        × (first.raw_start ≡ raw + byte_len pre)
        × (last.raw_end ≡ first.raw_start + byte_len mid)
  unfolding fold_from byte_len
  located-IsPiece raw folded [] start end first last lt p q = cc
  located-IsPiece raw folded (c ∷ t) start end first last lt p q =
      let folded_end = folded + byte_len (u.default_case_fold_str (c ∷ [])) in
      let head : FoldSpan = record {
        folded_start = folded;
        folded_end = folded_end;
        raw_start = raw;
        raw_end = raw + len_utf8 c;
      } in
      let starts : FoldSpan → Bool = λ span. span.folded_start == start in
      let ends : FoldSpan → Bool = λ span. span.folded_end == end in
      let spans = (fold_from u (raw + len_utf8 c) folded_end t).1 in
      elim (Bool-cases (starts head)) [
        | inl s ↦ elim (Bool-cases (ends head)) [
          | inl e ↦
              let first_is = ap (λ span. span.raw_start) (find?_hit starts head first spans s p) in
              let last_is = ap (λ span. span.raw_end) (find?_hit ends head last spans e q) in
              (
                [],
                c ∷ [],
                t,
                refl,
                (λ none_left. cc),
                omega (arith, first_is),
                omega (arith, first_is, last_is),
              )
          | inr e ↦
              let first_is = ap (λ span. span.raw_start) (find?_hit starts head first spans s p) in
              let (pre, d, post, whole, _, f, _) =
                span_found ends (raw + len_utf8 c) folded_end t last
                  (find?_miss ends head last spans e q) in
              (
                [],
                c ∷ (pre ++ d ∷ []),
                post,
                ap (◌∷◌ c) (whole ∙ sym (append_assoc pre (d ∷ []) post)),
                (λ none_left. cc),
                omega (arith, first_is),
                omega (arith, first_is, byte_len-append pre (d ∷ [])),
              )
        ]
        | inr s ↦ elim (Bool-cases (ends head)) [
          | inl e ↦
              let found = find?_miss starts head first spans s p in
              let (_, _, _, _, _, _, after) =
                span_found starts (raw + len_utf8 c) folded_end t first found in
              let at_start =
                (==_iff first.folded_start start).0 (find?_sound starts spans first found) in
              let at_end = (==_iff folded_end end).0 e in
              absurd (omega (arith, at_start, at_end, after))
          | inr e ↦
              let (pre, mid, post, whole, ne, f, g) =
                located-IsPiece (raw + len_utf8 c) folded_end t start end first last lt
                  (find?_miss starts head first spans s p) (find?_miss ends head last spans e q) in
              (c ∷ pre, mid, post, ap (◌∷◌ c) whole, ne, omega arith, g)
        ]
      ]

  locate-IsPiece :
      (raw : Text) (m : ℕ × ℕ) (location : ℕ × ℕ)
      → m.0 < m.1
      → locate (fold_from u 0 0 raw).1 m ≡ some location
      → IsPiece raw location.0 location.1
  unfolding locate
  locate-IsPiece raw (start, end) location lt h =
      elim (Option-cases (find? (λ span. span.folded_start == start) spans)) [
        | inl lost ↦ ground (arith, lost)
        | inr (first, p) ↦ elim (Option-cases (find? (λ span. span.folded_end == end) spans)) [
          | inl lost ↦ ground (arith, lost, p)
          | inr (last, q) ↦
              let (pre, mid, post, whole, ne, f, g) =
                located-IsPiece 0 0 raw start end first last lt p q in
              let is : (first.raw_start, last.raw_end) ≡ location = ground (arith, p, q) in
              subst (λ l. IsPiece raw l.0 l.1) is (pre, mid, post, whole, ne, omega arith, g)
        ]
      ]
    where
      spans : List FoldSpan
      spans = (fold_from u 0 0 raw).1

  locate_all-IsPiece :
      (raw : Text) (ms : List (ℕ × ℕ))
      → All (λ m. m.0 < m.1) ms
      → All (λ l. IsPiece raw l.0 l.1) (locate_all (fold_from u 0 0 raw).1 ms)
  unfolding locate_all
  locate_all-IsPiece raw [] h = tt
  locate_all-IsPiece raw (m ∷ ms) h = elim (Option-cases (locate (fold_from u 0 0 raw).1 m)) [
    | inl lost ↦ rw (lost, locate_all) (locate_all-IsPiece raw ms h.1)
    | inr (location, found) ↦
        rw (found, locate_all)
          (locate-IsPiece raw m location h.0 found, locate_all-IsPiece raw ms h.1)
  ]

  locations-IsPiece :
      (mode : MatchMode) (raw : Text) (variant : LexiconVariant)
      → needle_of mode variant ≢ []
      → All (λ l. IsPiece raw l.0 l.1) (locations u mode raw variant)
  unfolding locations find_all
  locations-IsPiece exact_case_sensitive raw variant ne =
      All-imp _ _ _ (λ m is_match. match-IsPiece variant.variant_text raw m ne is_match)
        (match_indices-IsMatch raw variant.variant_text)
  locations-IsPiece exact_casefold raw variant ne = locate_all-IsPiece raw _ (
      All-imp _ _ _ (λ m is_match. match_lt variant.variant_key _ m ne is_match)
        (match_indices-IsMatch _ variant.variant_key))

  find_candidates-IsPiece :
      (raw : Text) (boundaries : List ℕ) (rule : CorrectionRule)
      → needle rule.variant ≢ []
      → All (λ c. IsPiece raw c.start_byte c.end_byte) (find_candidates u raw boundaries rule)
  unfolding find_candidates
  find_candidates-IsPiece raw boundaries rule ne = All-map _ (candidate_at rule) _ (
      All-filter (λ l. IsPiece raw l.0 l.1) _ _
        (locations-IsPiece rule.variant.match_mode raw rule.variant ne))

  collect_step :
      (raw : Text) (boundaries : List ℕ) (rule : CorrectionRule) (rules : List CorrectionRule)
      (cs : List Candidate)
      → collect u raw boundaries (rule ∷ rules) ≡ ok cs
      → (rest : List Candidate) × (collect u raw boundaries rules ≡ ok rest)
        × ((if not rule.entry.enabled || leb (length boundaries) 1
                then []
                else find_candidates u raw boundaries rule)
              ++ rest
            ≡ cs)
  unfolding collect
  collect_step raw boundaries rule rules cs h = ground arith

  -- What the first loop of `apply_corrections` collects.
  pub collect-IsPiece :
      (raw : Text) (boundaries : List ℕ) (rules : List CorrectionRule) (cs : List Candidate)
      → All (λ rule. needle rule.variant ≢ []) rules
      → collect u raw boundaries rules ≡ ok cs
      → All (λ c. IsPiece raw c.start_byte c.end_byte) cs
  collect-IsPiece raw boundaries [] cs ne h =
      let none_left : [] ≡ cs = unfold collect in ok_eq h in
      subst (All (λ c. IsPiece raw c.start_byte c.end_byte)) none_left tt
  collect-IsPiece raw boundaries (rule ∷ rules) cs ne h =
      let (rest, later, is) = collect_step raw boundaries rule rules cs h in
      let skips = not rule.entry.enabled || leb (length boundaries) 1 in
      let pieces : Candidate → Type 0 = λ c. IsPiece raw c.start_byte c.end_byte in
      subst (All pieces) is (
        All-append pieces (if skips then [] else find_candidates u raw boundaries rule) rest
          (All-if pieces skips _ (find_candidates-IsPiece raw boundaries rule ne.0))
          (collect-IsPiece raw boundaries rules rest ne.1 later))

  -- The first loop fails only on a variant that belongs to another entry.
  pub collect_total :
      (raw : Text) (boundaries : List ℕ) (rules : List CorrectionRule)
      → All (λ rule. rule.variant.entry_id ≡ rule.entry.id) rules
      → (cs : List Candidate) × (collect u raw boundaries rules ≡ ok cs)
  unfolding collect
  collect_total raw boundaries [] h = ([], refl)
  collect_total raw boundaries (rule ∷ rules) h =
      let (rest, later) = collect_total raw boundaries rules h.1 in
      (
        (if not rule.entry.enabled || leb (length boundaries) 1
              then []
              else find_candidates u raw boundaries rule)
            ++ rest,
        rw (later, (==_iff rule.variant.entry_id rule.entry.id).1 h.0),
      )
