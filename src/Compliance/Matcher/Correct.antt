-- ===== src/Compliance/Matcher/Correct.antt =====
-- `newMatcher` and `Match` of internal/compliance/aho.go together, against the definition of a substring.
use yzapi.Base.{
  ℕ, ◌≤◌, ◌<◌, ◌≡◌, sym, ap, ◌∙◌, ◌≢◌, inl, inr, ◌↔◌, some, List, [], subst, length, arith, leb,
  Bool-cases, true, false,
}
use yzapi.Base.Pick.{All}
use mathlib.Core.Bool.{true≢false}
use mathlib.Core.List.{Memᴰ, reverse, reverse-reverse}
use mathlib.Core.List.Memᴰ.{not-nil}
use yzapi.Health.Truncate.{Bytes}
use yzapi.Compliance.Matcher.{
  Matcher, empty_matcher, add_patterns, build_links, new_matcher, match_all,
}
use yzapi.Compliance.Matcher.Pre.{Pre}
use yzapi.Compliance.Matcher.Trie.{IsTrie}
use yzapi.Compliance.Matcher.Insert.{IsText}
use yzapi.Compliance.Matcher.Outputs.{Outputs, Numbered}
use yzapi.Compliance.Matcher.Follow.{IsBest}
use yzapi.Compliance.Matcher.Build.{build_links-IsDone, patterns-Holds, Numbered-filled}
use yzapi.Compliance.Matcher.Scan.{Distinct, IsTally, Follows, scan-Adds}
use yzapi.Compliance.Matcher.Parts.{
  get_elem?, Contains, Numbered-get, get-Numbered, Follows-split, Ends-Contains, Contains-Follows,
}

-- What the scan of a text finds with the patterns of a slice
Follows-Contains :
    (ps : List Bytes) (text : Bytes) (i : ℕ)
    → Follows (Numbered 0 ps) i [] text
      ↔ ((p : Bytes) × (get_elem? ps i ≡ some p) × (p ≢ []) × Contains text p)
Follows-Contains ps text i = (
  λ h.
      let (u, c, e, f) = Follows-split (Numbered 0 ps) i text [] h in
      let (p, g, k) = Ends-Contains (Numbered 0 ps) i u c f in
      let (j, r, same, at, d, back) = Numbered-get 0 ps i (reverse p) g in
      let r_is_p = sym (reverse-reverse r) ∙ ap reverse (sym back) ∙ reverse-reverse p in
      (
        p,
        ap (get_elem? ps) (omega (arith, same)) ∙ at ∙ ap some r_is_p,
        λ z. d (r_is_p ∙ z),
        subst (λ x. Contains x p) (sym e) k,
      ),
  λ (p, e, d, k).
      Contains-Follows (Numbered 0 ps) i p text
        (subst (λ a. Numbered 0 ps a (reverse p)) (omega arith) (get-Numbered 0 ps i p e d)) d k,
)

leb_le : (a b : ℕ) → leb a b ≡ true → a ≤ b
leb_le a b e = ground arith

-- with the root alone there are no patterns
only_root :
    (m : Matcher) (l : ℕ → Bytes) (q : ℕ → Bytes → Type 0)
    → IsTrie m.size m.next l
    → Outputs m l q
    → ((i : ℕ) (s : Bytes) → q i s → s ≢ [])
    → m.size ≤ 1
    → (i : ℕ) (s : Bytes) → q i s
    → ⊥
only_root m l q t o filled small i s h =
    let (c, lc, e) = o.placed i s h in
    filled i s h (sym e ∙ ap l (omega (arith, lc, small)) ∙ t.root)

start : (m : Matcher) (l : ℕ → Bytes) → IsTrie m.size m.next l → IsBest m.size m.next l 1 [] 0
start m l t = record {
  node = t.inhabited;
  prefix = subst (λ s. Pre s []) (sym t.root) tt;
  under = omega (arith, ap length t.root);
  longest = λ n ln p short. omega (arith, short);
}

nothing_yet : IsTally (record { found = []; seen = λ p. false })
nothing_yet = record {
  marked = λ p h. absurd (not-nil h);
  there = λ p e. absurd (true≢false (sym e));
  once = tt;
}

-- `Match` on the automaton that `newMatcher` builds lists exactly the numbers of the patterns that are not
-- empty and are part of the text, each once. The walk of a map may take any order that meets every byte
-- below 256, and the patterns consist of such bytes.
pub match_all-new_matcher :
    (order : ℕ → List ℕ) (ps : List Bytes) (text : Bytes)
    → ((n b : ℕ) → b < 256 → Memᴰ b (order n))
    → All IsText ps
    → Distinct (match_all (new_matcher order ps) text)
      × ((i : ℕ)
          → Memᴰ i (match_all (new_matcher order ps) text)
            ↔ ((p : Bytes) × (get_elem? ps i ≡ some p) × (p ≢ []) × Contains text p))
unfolding match_all new_matcher
match_all-new_matcher order ps text walks bytes =
    let m = add_patterns 0 ps empty_matcher in
    let k = build_links order m in
    let (l, t, o) = patterns-Holds ps bytes in
    let (st, good) =
      build_links-IsDone order m l (Numbered 0 ps) t o (Numbered-filled 0 ps) walks in
    elim (Bool-cases (leb k.size 1)) [
      | inl e ↦ rw e (
        tt,
        λ i. (
          λ h. absurd (not-nil h),
          λ (p, g, d, c). absurd (
              only_root m l (Numbered 0 ps) t o (Numbered-filled 0 ps)
                (omega (arith, st.size_same, leb_le k.size 1 e)) i (reverse p)
                (subst (λ a. Numbered 0 ps a (reverse p)) (omega arith)
                  (get-Numbered 0 ps i p g d))),
        ),
      )
      | inr e ↦ rw e (
          let (tally, f) =
            scan-Adds m.size m.next l (Numbered 0 ps) t o.placed k st good text [] 0
              (record { found = []; seen = λ p. false }) (start m l t) nothing_yet in
          (
            tally.once,
            λ i. (
              λ h.
                  (Follows-Contains ps text i).0
                    (elim ((f i).0 h) [ inl none_yet ↦ absurd (not-nil none_yet) | inr new ↦ new ]),
              λ h. (f i).1 (inr ((Follows-Contains ps text i).1 h)),
            ),
          ))
    ]
