-- ===== src/Compliance/Matcher/Links.antt =====
-- The links of internal/compliance/aho.go, one child at a time: what a link and the outputs that come
-- with it give to the child, and to the other nodes.
use yzapi.Base.{
  ℕ, ◌≤◌, ◌<◌, ◌≡◌, refl, sym, ap, ◌≢◌, inl, inr, Option, some, List, ◌++◌, update, update_self,
  update_other, subst, length, arith, Option-cases,
}
use native.Mathlib.Decide.{ℕ_discrete}
use mathlib.Core.List.{Memᴰ}
use mathlib.Core.List.Memᴰ.{append_left, append_right, append_cases}
use yzapi.Health.Truncate.{Bytes}
use yzapi.Compliance.Matcher.{follow, other_than}
use yzapi.Compliance.Matcher.Pre.{Pre, Pre-refl, Pre-trans, Pre-length, Pre-linear, Pre-same}
use yzapi.Compliance.Matcher.Trie.{IsTrie, Node}
use yzapi.Compliance.Matcher.Follow.{IsBest, IsFall, follow-IsBest}

module _ (size : ℕ) (next : ℕ → ℕ → Option ℕ) (l : ℕ → Bytes) (q : ℕ → Bytes → Type 0) where
  -- the outputs of a node: its own patterns, and only patterns that are suffixes of its text
  pub record IsSound (out : ℕ → List ℕ) : Type 0 where
    pub own : (n i : ℕ) → n < size → q i (l n) → Memᴰ i (out n)
    pub only : (n i : ℕ) → n < size → Memᴰ i (out n) → (s : Bytes) × Pre s (l n) × q i s

  abbrev pub IsFull : (ℕ → List ℕ) → ℕ → Type 0
  IsFull out n = (i : ℕ) (s : Bytes) → Pre s (l n) → q i s → Memᴰ i (out n)

  -- a node whose link and outputs are final
  abbrev pub IsGood : (ℕ → ℕ) → (ℕ → List ℕ) → ℕ → Type 0
  IsGood fail out n = IsFall size next l fail n × IsFull out n

  abbrev pub Grows : (ℕ → List ℕ) → (ℕ → List ℕ) → Type 0
  Grows out more = (n i : ℕ) → Memᴰ i (out n) → Memᴰ i (more n)

  module _ (fail : ℕ → ℕ) (out more : ℕ → List ℕ) (c f : ℕ)
      (best : IsBest size next l (length (l c)) (l c) f) where
    falls_here : IsFall size next l (update fail c f) c
    falls_here nz =
        subst (IsBest size next l (length (l c)) (l c)) (sym (update_self fail c c f refl)) best

    pub linked_here : IsFull more c → IsGood (update fail c f) more c
    linked_here full = (falls_here, full)

    pub linked_other :
        Grows out more → (n : ℕ) → IsGood fail out n → IsGood (update fail c f) more n
    linked_other grows n (falls, full) = (
      elim (ℕ_discrete n c) [
        | yes same ↦ subst (IsFall size next l (update fail c f)) (sym same) falls_here
        | no d ↦ λ nz.
            subst (IsBest size next l (length (l n)) (l n))
              (sym (update_other fail c n f (λ e. d (sym e)))) (falls nz)
      ],
      λ i s p h. grows n i (full i s p h),
    )

  module _ (out : ℕ → List ℕ) (c f : ℕ) where
    abbrev merged : ℕ → List ℕ
    merged = update out c (out c ++ out f)

    merged_self : (n : ℕ) → c ≡ n → merged n ≡ out c ++ out f
    merged_self n e = update_self out c n (out c ++ out f) e

    merged_other : (n : ℕ) → c ≢ n → merged n ≡ out n
    merged_other n d = update_other out c n (out c ++ out f) d

    pub merged-Grows : Grows out merged
    merged-Grows n i h = elim (ℕ_discrete c n) [
      | yes e ↦
          subst (Memᴰ i) (sym (merged_self n e))
            (append_left (out f) (subst (λ a. Memᴰ i (out a)) (sym e) h))
      | no d ↦ subst (Memᴰ i) (sym (merged_other n d)) h
    ]

    module _ (lc : c < size) (best : IsBest size next l (length (l c)) (l c) f)
        (sound : IsSound out) where
      pub merged-IsSound : IsSound merged
      merged-IsSound = record {
        own = λ n i ln h. merged-Grows n i (sound.own n i ln h);
        only = λ n i ln h. elim (ℕ_discrete c n) [
          | no d ↦ sound.only n i ln (subst (Memᴰ i) (merged_other n d) h)
          | yes e ↦
              subst (λ a. (s : Bytes) × Pre s (l a) × q i s) e
                (elim (append_cases (out c) (subst (Memᴰ i) (merged_self n e) h)) [
                  | inl old ↦ sound.only c i lc old
                  | inr new ↦
                      let (s, p, g) = sound.only f i best.node new in
                      (s, Pre-trans s (l f) (l c) p best.prefix, g)
                ])
        ];
      }

      pub merged-IsFull :
          ((i : ℕ) (s : Bytes) → q i s → Node size next l s) → IsFull out f → IsFull merged c
      merged-IsFull placed full i s p h =
          subst (Memᴰ i) (sym (merged_self c refl)) (elim (ℕ_discrete (length s) (length (l c))) [
            | yes same ↦
                append_left (out f) (
                  sound.own c i lc (subst (q i) (Pre-same s (l c) (l c) p (Pre-refl (l c)) same) h))
            | no d ↦
                let (n, ln, e) = placed i s h in
                let le =
                  best.longest n ln (subst (λ a. Pre a (l c)) (sym e) p)
                    (omega (arith, d, ap length e, Pre-length s (l c) p)) in
                append_right (out c) (
                  full i s (Pre-linear s (l f) (l c) p best.prefix (omega (arith, ap length e, le)))
                    h)
          ])

  -- The link that the loop finds for the child `c` of `cur` at `b` is the longest proper suffix.
  module _ (t : IsTrie size next l) (fail : ℕ → ℕ) (cur b c : ℕ) (lt : cur < size) (nz : cur ≢ 0)
      (edge : next cur b ≡ some c)
      (falls : (f : ℕ) → f < size → length (l f) ≤ length (l cur) → IsFall size next l fail f) where
    accepts :
        (f : ℕ) → f < size → length (l f) < length (l cur) → other_than c (next f b) ≡ next f b
    accepts f lf short = elim (Option-cases (next f b)) [
      | inl e ↦ rw e refl
      | inr (n, e) ↦
          let (_, _, _, g) = t.down f b n lf e in
          let (_, _, _, h) = t.down cur b c lt edge in
          let d : n ≢ c =
            λ same. omega (arith, short, ap (λ a. length (l a)) same, ap length g, ap length h) in
          rw e (ground arith)
    ]

    pub link-IsBest :
        IsBest size next l
          (length (l c))
          (l c)
          (follow (λ f. other_than c (next f b)) fail size (fail cur))
    link-IsBest =
        let (_, _, _, h) = t.down cur b c lt edge in
        let best = falls cur lt (omega arith) nz in
        subst
          (λ s.
            IsBest size next l (length s) s
              (follow (λ f. other_than c (next f b)) fail size (fail cur)))
          (sym h)
          (follow-IsBest size next l t (λ f. other_than c (next f b)) fail (l cur) b
            (length (l cur)) accepts (λ f lf short. falls f lf (omega arith)) size (fail cur)
            (record {
              node = best.node;
              prefix = best.prefix;
              under = best.under;
              no_longer = λ n k ln p short g. best.longest n ln p short;
            })
            (omega (arith, t.short (fail cur) best.node, best.node)))
