-- ===== src/Compliance/Keywords.antt =====
-- The keyword pass of internal/compliance/compliance.go and the verdict it leads to, from the rows that a
-- reload reads.
use Prim.Native.String.{String}
use yzapi.Base.{
  ℕ, zero, suc, ◌<◌, ◌≡◌, refl, sym, ap, ◌∙◌, inl, inr, ◌↔◌, ◌++◌, true, false, Option, none, some,
  List, [], ◌∷◌, Bool-cases, Option-cases, Result, ok, err, ltb, length,
}
use mathlib.Core.Bool.{true≢false}
use mathlib.Core.Option.{none-ne-some, some-injective}
use mathlib.Core.List.{Memᴰ}
use mathlib.Core.List.Memᴰ.{not-nil, append_left}
use yzapi.Health.Truncate.{Bytes}
use yzapi.Compliance.{Go, Policy, WordEntry, SampleEntry, Index, HitEntry, Verdict}
use yzapi.Compliance.Check.{
  is_nil, blocks, word_at, keyword_hit, keyword_pass, compare_samples, compared, after_embed,
  semantic_pass, threshold_used, check_loaded,
}
use yzapi.Compliance.Reload.{
  SensitiveWord, AuditSample, Tables, Engine, pattern_of, load_words, load_samples, word_entry,
  index_of, policies, group_ids, reload, check,
}
use yzapi.Compliance.Matcher.{match_all, new_matcher}
use yzapi.Compliance.Matcher.Insert.{IsText}
use yzapi.Compliance.Matcher.Correct.{match_all-new_matcher}
use yzapi.Compliance.Primary.{aggregate-block}
use yzapi.Compliance.Words.{
  hits_at_lem, InRange, load_words-PatternsAt, texts, Occurs, listed-Occurs,
}

no_words :
    (ws : List WordEntry) (i : ℕ) (w : WordEntry) → is_nil ws ≡ true → word_at ws i ≡ some w → ⊥
no_words [] i w e f = none-ne-some w f
no_words (v ∷ ws) i w e f = true≢false (sym e)

module _ (go : Go) (order : ℕ → List ℕ) (walks : (n b : ℕ) → b < 256 → Memᴰ b (order n))
    (bytes : (s : Bytes) → IsText (go.lower s)) where
  -- The keyword pass of a loaded index does not panic, and its hits are those of the words that the rows
  -- hold and that occur in the text, both without regard to case and the word without the space around it.
  -- The walk of a map may take any order that meets every byte, and `strings.ToLower` gives bytes.
  keyword_pass-load_words :
      (pol : ℕ → Policy) (ws : List SensitiveWord) (rest : List SampleEntry × ℕ) (text : Bytes)
      → (hits : List HitEntry) × (keyword_pass go
            (index_of go order (load_words go order pol ws) rest)
            text
          ≡ some hits)
        × ((h : HitEntry)
            → Memᴰ h hits ↔ (
                (w : SensitiveWord) × Occurs go order pol ws text w
                × (h ≡ keyword_hit (word_entry pol w))))
  unfolding keyword_pass
  keyword_pass-load_words pol ws rest text =
      let words = (load_words go order pol ws).0 in
      let patterns = (load_words go order pol ws).1 in
      let is = match_all (new_matcher order patterns) (go.lower text) in
      let (_, found) =
        match_all-new_matcher order patterns (go.lower text) walks (texts go order pol bytes ws) in
      let ranged : InRange words is = λ i m.
        let (w, _, _, e) = (listed-Occurs go order pol ws text i).0 ((found i).0 m) in
        (word_entry pol w, e) in
      let (hits, e, each) = hits_at_lem words is ranged in
      elim (Bool-cases (is_nil words)) [
        | inl z ↦ rw z (
          [],
          refl,
          λ h. (
            λ m. absurd (not-nil m),
            λ (w, (m, d, _), _).
                let (i, _, g) = load_words-PatternsAt go order pol ws w m d in
                absurd (no_words words i (word_entry pol w) z g),
          ),
        )
        | inr z ↦ rw z (
          hits,
          e,
          λ h. (
            λ m.
                let (i, v, n, g, same) = (each h).0 m in
                let (w, o, _, f) = (listed-Occurs go order pol ws text i).0 ((found i).0 n) in
                (w, o, same ∙ ap keyword_hit (some-injective v (word_entry pol w) (sym g ∙ f))),
            λ (w, (m, d, c), same).
                let (i, f, g) = load_words-PatternsAt go order pol ws w m d in
                (each h).1
                  (i, word_entry pol w, (found i).1 (pattern_of go order w, f, d, c), g, same),
          ),
        )
      ]

  -- a blocking hit of the keyword pass blocks, whatever becomes of the semantic pass
  compared-block :
      (q : ℕ) (hits : List HitEntry) (r : ℕ × List HitEntry) (h : HitEntry)
      → Memᴰ h hits
      → blocks h.policy ≡ true
      → (compared go q hits r).block ≡ true
  compared-block q hits (zero, more) h m b =
      aggregate-block go (hits ++ more) h (append_left more m) b
  compared-block q hits (suc n, more) h m b =
      aggregate-block go (hits ++ more) h (append_left more m) b

  after_embed-block :
      (hits : List HitEntry) (t : ℕ) (samples : List SampleEntry) (r : Result Bytes (List (List ℕ)))
      (h : HitEntry)
      → Memᴰ h hits
      → blocks h.policy ≡ true
      → (after_embed go hits t samples r).block ≡ true
  unfolding after_embed
  after_embed-block hits t samples (err e) h m b = aggregate-block go hits h m b
  after_embed-block hits t samples (ok []) h m b = aggregate-block go hits h m b
  after_embed-block hits t samples (ok ([] ∷ [])) h m b = aggregate-block go hits h m b
  after_embed-block hits t samples (ok (v ∷ w ∷ vs)) h m b = aggregate-block go hits h m b
  after_embed-block hits t samples (ok ((x ∷ q) ∷ [])) h m b =
      compared-block (length (x ∷ q)) hits
        (compare_samples go (x ∷ q) (threshold_used go t) samples) h m b

  module _ (embed : Option (Bytes → Result Bytes (List (List ℕ)))) where
    semantic_pass-block :
        (idx : Index) (text : Bytes) (t : ℕ) (hits : List HitEntry) (h : HitEntry)
        → Memᴰ h hits
        → blocks h.policy ≡ true
        → (semantic_pass go embed idx text t hits).block ≡ true
    unfolding semantic_pass
    semantic_pass-block idx text t hits h m b = elim (Bool-cases (is_nil idx.samples)) [
      | inl e ↦ rw e (elim (Bool-cases (ltb 0 idx.stale)) [
        | inl f ↦ rw f (aggregate-block go hits h m b)
        | inr f ↦ rw f (aggregate-block go hits h m b)
      ])
      | inr e ↦ rw e (elim (Option-cases embed) [
        | inl f ↦ rw f (aggregate-block go hits h m b)
        | inr (g, f) ↦ rw f (after_embed-block hits t idx.samples (g text) h m b)
      ])
    ]

    -- a reload that reads its rows
    reload_lem :
        (cur : String) (db : Tables) (e : Engine) (g : Policy) (gs : List Policy)
        (ws : List SensitiveWord) (ss : List AuditSample)
        → db.groups ≡ ok (g ∷ gs)
        → db.words (group_ids (g ∷ gs)) ≡ ok ws
        → db.samples (group_ids (g ∷ gs)) ≡ ok ss
        → reload go order cur db e ≡ record {
          idx =
              index_of go order
                (load_words go order (policies (g ∷ gs)) ws)
                (load_samples (policies (g ∷ gs)) cur ss);
          loaded = true;
          load_err = none;
        }
    unfolding reload
    reload_lem cur db e g gs ws ss eg ew es = rw (eg, ew, es) refl

    check_idx :
        (idx : Index) (text : Bytes) (t : ℕ) (hits : List HitEntry)
        → is_nil (go.trim text) ≡ false
        → keyword_pass go idx text ≡ some hits
        → check go embed (record { idx = idx; loaded = true; load_err = none }) text t
          ≡ some (semantic_pass go embed idx text t hits)
    unfolding check check_loaded
    check_idx idx text t hits full f = rw full (rw f refl)

    -- A text that contains an enabled word of an enabled blocking group is blocked, in any case of its
    -- letters and with no space around the word; the check does not panic. This holds for every text that
    -- is not blank, after every reload that reads its rows, whatever the embedding service answers and
    -- however the samples compare. The walk of a map may take any order that meets every byte, and
    -- `strings.ToLower` gives bytes.
    pub check-reload-blocks :
        (cur : String) (db : Tables) (e : Engine) (text : Bytes) (t : ℕ) (g : Policy)
        (gs : List Policy) (ws : List SensitiveWord) (ss : List AuditSample) (w : SensitiveWord)
        → db.groups ≡ ok (g ∷ gs)
        → db.words (group_ids (g ∷ gs)) ≡ ok ws
        → db.samples (group_ids (g ∷ gs)) ≡ ok ss
        → is_nil (go.trim text) ≡ false
        → Occurs go order (policies (g ∷ gs)) ws text w
        → blocks (policies (g ∷ gs) w.policy_group_id) ≡ true
        → (v : Verdict) × (check go embed (reload go order cur db e) text t ≡ some v)
          × (v.block ≡ true)
    check-reload-blocks cur db e text t g gs ws ss w eg ew es full o b =
        let pol = policies (g ∷ gs) in
        let words = load_words go order pol ws in
        let samples = load_samples pol cur ss in
        let idx = index_of go order words samples in
        let (hits, f, each) = keyword_pass-load_words pol ws samples text in
        let h = keyword_hit (word_entry pol w) in
        (
          semantic_pass go embed idx text t hits,
          rw (reload_lem cur db e g gs ws ss eg ew es) (check_idx idx text t hits full f),
          semantic_pass-block idx text t hits h ((each h).1 (w, o, refl)) b,
        )
