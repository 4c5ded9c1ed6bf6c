-- ===== src/Lexicon/Entry/Normal.antt =====
-- What the validation of an entry makes sure of, and what the worker makes of it.
use free_whisper.Prelude.{
  ℕ, ◌≤◌, ◌≡◌, refl, subst, Bool, true, false, List, [], ◌∷◌, ◌++◌, Option, arith, inl, inr, All,
  All-append, Bool-cases, ltb, if◌then◌else◌, length, is_empty, ok, >>=-eq-ok, ok_eq, refuse_if,
  refuse_if-eq-ok, Text,
}
use Prim.Native.String.{String}
use free_whisper.Prelude.Str.{is_whitespace, trim, trim_start, trim_end}
use free_whisper.Lexicon.Entry.{
  Unicode, LexiconScope, LexiconEntry, flush, split_words, join, normalize_display_text,
  normalize_term, normalize_language, normalize_optional, new_entry,
}

abbrev IsSolid : Text → Type 0
IsSolid = All (λ c. is_whitespace c ≡ false)

abbrev IsWord : Text → Type 0
IsWord word = IsSolid word × (is_empty word ≡ false)

flush-IsWord :
    (word : Text) (words : List Text)
    → IsSolid word
    → All IsWord words
    → All IsWord (flush word words)
unfolding flush
flush-IsWord [] words solid rest = rest
flush-IsWord (c ∷ word) words solid rest = ((solid, refl), rest)

split_words-IsWord : (word t : Text) → IsSolid word → All IsWord (split_words word t)
unfolding split_words
split_words-IsWord word [] solid = flush-IsWord word [] solid tt
split_words-IsWord word (c ∷ t) solid = elim (Bool-cases (is_whitespace c)) [
  | inl space ↦ rw space (flush-IsWord word (split_words [] t) solid (split_words-IsWord [] t tt))
  | inr letter ↦ rw letter (
      split_words-IsWord (word ++ c ∷ []) t
        (All-append (λ x. is_whitespace x ≡ false) word (c ∷ []) solid (letter, tt)))
]

-- A text that starts with a character that is no white space.
abbrev StartsSolid : Text → Type 0
StartsSolid [] = ⊥
StartsSolid (c ∷ t) = is_whitespace c ≡ false

join-StartsSolid :
    (words : List Text)
    → All IsWord words
    → is_empty (join words) ≡ false
    → StartsSolid (join words)
unfolding join
join-StartsSolid [] h e = cc
join-StartsSolid ([] ∷ words) h e = absurd (true≢false h.0.1)
  where
    true≢false : ◌≡◌ {A = Bool} true false → ⊥
    true≢false p = cc
join-StartsSolid ((c ∷ word) ∷ []) h e = h.0.0.0
join-StartsSolid ((c ∷ word) ∷ next ∷ words) h e = h.0.0.0

solid_is_visible : (t : Text) → StartsSolid t → is_empty (trim t) ≡ false
unfolding trim trim_start
solid_is_visible [] h = absurd h
solid_is_visible (c ∷ t) h = rw h (kept (trim_end t))
  where
    kept :
        (u : Text)
        → is_empty (elim u [ [] ↦ if is_whitespace c then [] else c ∷ [] | d ∷ v ↦ c ∷ d ∷ v ])
          ≡ false
    kept [] = rw h refl
    kept (d ∷ v) = refl

display_text-StartsSolid :
    (u : Unicode) (value : Text) (field : String) (text : Text)
    → normalize_display_text u value field ≡ ok text
    → StartsSolid text
unfolding normalize_display_text
display_text-StartsSolid u value field text h =
    let words = split_words [] (u.nfc value) in
    elim (Bool-cases (is_empty (join words))) [
      | inl e ↦ cc
      | inr e ↦
          let same : join words ≡ text = ok_eq (rw e at h) in
          subst StartsSolid same (join-StartsSolid words (split_words-IsWord [] (u.nfc value) tt) e)
    ]

term_fits :
    (u : Unicode) (value : Text) (field : String) (text : Text)
    → normalize_term u value field ≡ ok text
    → StartsSolid text × (length text ≤ 256)
unfolding normalize_term
term_fits u value field text h =
    let (displayed, first, rest) = >>=-eq-ok (normalize_display_text u value field) _ h in
    let (passed, short, last) = >>=-eq-ok (refuse_if (ltb 256 (length displayed)) _) _ rest in
    let same : displayed ≡ text = ok_eq last in
    let bound = refuse_if-eq-ok (ltb 256 (length displayed)) _ short in
    subst (λ t. StartsSolid t × (length t ≤ 256)) same
      (display_text-StartsSolid u value field displayed first, ground (arith, bound))

-- An entry that validation accepts has a term of at most 256 characters that is not blank, and a
-- priority of at most 100, whatever the text, the language and the category that were typed in.
pub new_entry_is_usable :
    (u : Unicode) (id : ℕ) (text : Text) (language category : Option Text) (priority : ℕ)
    (scope : LexiconScope) (now : ℕ) (e : LexiconEntry)
    → new_entry u id text language category priority scope now ≡ ok e
    → (is_empty (trim e.canonical_text) ≡ false)
      × (length e.canonical_text ≤ 256)
      × (e.priority ≤ 100)
unfolding new_entry
new_entry_is_usable u id text language category priority scope now e h =
    let (checked, small, rest) = >>=-eq-ok (refuse_if (ltb 100 priority) _) _ h in
    let (term, fits, rest') = >>=-eq-ok (normalize_term u text "canonical text") _ rest in
    let (language', l, rest'') = >>=-eq-ok (normalize_language u language) _ rest' in
    let (category', c, last) = >>=-eq-ok (normalize_optional u category "category" 64) _ rest'' in
    let made = ok_eq last in
    let (solid, short) = term_fits u text "canonical text" term fits in
    let low = refuse_if-eq-ok (ltb 100 priority) _ small in
    subst
      (λ entry.
        (is_empty (trim entry.canonical_text) ≡ false)
        × (length entry.canonical_text ≤ 256)
        × (entry.priority ≤ 100))
      made (solid_is_visible term solid, short, ground (arith, low))
