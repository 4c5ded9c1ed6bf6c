-- ===== src/Lexicon/Correction/RoundTrip.antt =====
-- What `apply_corrections` makes and what `render_corrections` makes of it again.
use free_whisper.Prelude.{
  ℕ, ◌^◌, ◌<◌, ◌≡◌, refl, sym, ap, ◌∙◌, ◌≢◌, List, [], arith, All, Bool, filter, length, ok, ok_eq,
  Text, byte_len, sort_by, sort_by-All, subst,
}
use free_whisper.Domain.Transcript.{AppliedCorrection}
use free_whisper.Lexicon.Entry.{Unicode}
use free_whisper.Lexicon.Correction.{
  Candidate, CorrectionRule, CorrectionResult, word_boundary_offsets, collect, select, candidate_le,
  apply_corrections, render_corrections,
}
use free_whisper.Lexicon.Correction.Patch.{patch, IsCut, IsByteCut, build_lem}
use free_whisper.Lexicon.Correction.Rendering.{IsCut-filter, render_lem}
use free_whisper.Lexicon.Correction.Candidates.{IsPiece, needle, collect-IsPiece, collect_total}
use free_whisper.Lexicon.Correction.Selection.{select-IsByteCut}

module _ (u : Unicode) (raw : Text) (rules : List CorrectionRule) (ids : ℕ → ℕ)
    (applied_at : ℕ) where
  selected-IsByteCut :
      (cs : List Candidate)
      → All (λ c. IsPiece raw c.start_byte c.end_byte) cs
      → IsByteCut 0 raw (select 0 (sort_by candidate_le cs))
  selected-IsByteCut cs pieces =
      select-IsByteCut raw [] raw 0 (sort_by candidate_le cs) refl (unfold byte_len in refl)
        (sort_by-All candidate_le (λ c. IsPiece raw c.start_byte c.end_byte) cs pieces)

  -- What is collected is built into a text.
  apply_collected :
      (cs : List Candidate)
      → length raw < 2 ^ 32
      → All (λ rule. needle rule.variant ≢ []) rules
      → collect u raw (word_boundary_offsets u raw) rules ≡ ok cs
      → (r : CorrectionResult) × (apply_corrections u raw rules ids applied_at ≡ ok r)
        × IsCut 0 raw r.corrections
        × (r.final_text ≡ patch 0 raw r.corrections)
  unfolding apply_corrections
  apply_collected cs small ne collected =
      let (r, made, cuts, text) =
        build_lem raw [] raw 0 (select 0 (sort_by candidate_le cs)) ids applied_at refl
          (unfold byte_len in refl) small
          (selected-IsByteCut cs (collect-IsPiece u raw _ rules cs ne collected)) in
      (r, rw (collected, apply_corrections) made, cuts, text)

  -- For a raw text of fewer than 2 ^ 32 characters, and rules whose variants belong to their
  -- entries and have a text to look for that is not empty, the corrections are applied without
  -- an error or a panic; each one replaces a non-empty piece of the raw text, after the piece
  -- before it, and records what stood there; and the final text is the raw text with exactly
  -- these pieces replaced.
  pub apply_patches :
      length raw < 2 ^ 32
      → All (λ rule. rule.variant.entry_id ≡ rule.entry.id) rules
      → All (λ rule. needle rule.variant ≢ []) rules
      → (r : CorrectionResult) × (apply_corrections u raw rules ids applied_at ≡ ok r)
        × IsCut 0 raw r.corrections
        × (r.final_text ≡ patch 0 raw r.corrections)
  apply_patches small own ne =
      let (cs, collected) = collect_total u raw (word_boundary_offsets u raw) rules own in
      apply_collected cs small ne collected

  collected_of :
      (r : CorrectionResult)
      → apply_corrections u raw rules ids applied_at ≡ ok r
      → (cs : List Candidate) × (collect u raw (word_boundary_offsets u raw) rules ≡ ok cs)
  unfolding apply_corrections
  collected_of r h = ground arith

  apply_cuts :
      (r : CorrectionResult)
      → length raw < 2 ^ 32
      → All (λ rule. needle rule.variant ≢ []) rules
      → apply_corrections u raw rules ids applied_at ≡ ok r
      → IsCut 0 raw r.corrections × (r.final_text ≡ patch 0 raw r.corrections)
  apply_cuts r small ne h =
      let (cs, collected) = collected_of r h in
      let (r', made, cuts, text) = apply_collected cs small ne collected in
      let same : r' ≡ r = ok_eq (sym made ∙ h) in
      subst (λ q. IsCut 0 raw q.corrections × (q.final_text ≡ patch 0 raw q.corrections)) same
        (cuts, text)

  -- For a raw text of fewer than 2 ^ 32 characters and rules whose needles are not empty: rendering
  -- all the corrections of a result from the raw text gives the result's final text again.
  pub render-apply :
      (r : CorrectionResult)
      → length raw < 2 ^ 32
      → All (λ rule. needle rule.variant ≢ []) rules
      → apply_corrections u raw rules ids applied_at ≡ ok r
      → render_corrections raw r.corrections ≡ ok r.final_text
  render-apply r small ne h =
      let (cuts, text) = apply_cuts r small ne h in
      render_lem raw r.corrections cuts ∙ ap ok (sym text)

  -- For a raw text of fewer than 2 ^ 32 characters and rules whose needles are not empty, each
  -- correction can be reverted alone: whichever corrections of a result are kept, rendering them
  -- succeeds, with the raw text in which just the kept pieces are replaced.
  pub render-kept :
      (r : CorrectionResult) (kept : AppliedCorrection → Bool)
      → length raw < 2 ^ 32
      → All (λ rule. needle rule.variant ≢ []) rules
      → apply_corrections u raw rules ids applied_at ≡ ok r
      → render_corrections raw (filter kept r.corrections)
        ≡ ok (patch 0 raw (filter kept r.corrections))
  render-kept r kept small ne h =
      render_lem raw (filter kept r.corrections)
        (IsCut-filter kept 0 raw r.corrections (apply_cuts r small ne h).0)
