-- ===== src/Compliance/Matcher/Build.antt =====
-- `newMatcher` of internal/compliance/aho.go as a whole: its nodes, links and outputs.
use yzapi.Base.{
  ℕ, suc, ◌≤◌, ◌<◌, ◌≡◌, refl, sym, ap, ◌∙◌, ◌≢◌, ◌⊎◌, inl, inr, some, List, [], ◌∷◌, map, subst,
  length, arith, List-cases,
}
use yzapi.Base.Pick.{All}
use mathlib.Core.Option.{none-ne-some}
use mathlib.Core.List.{Memᴰ, cons≢nil, reverse, reverse-reverse}
use mathlib.Core.List.Memᴰ.{not-nil}
use yzapi.Health.Truncate.{Bytes}
use yzapi.Compliance.Matcher.{
  Matcher, empty_matcher, root_links, edges, under, build_links, add_patterns,
}
use yzapi.Compliance.Matcher.Pre.{Pre-refl, Pre-length}
use yzapi.Compliance.Matcher.Trie.{IsTrie}
use yzapi.Compliance.Matcher.Insert.{IsText}
use yzapi.Compliance.Matcher.Outputs.{Outputs, Holds, Numbered, Outputs-iff, add_patterns-Holds}
use yzapi.Compliance.Matcher.Visit.{
  Good, IsStage, IsVisited, edges-next, edges-all, All-mem, child_of, map-mem,
}
use yzapi.Compliance.Matcher.Roots.{root_links-IsVisited}
use yzapi.Compliance.Matcher.Fuel.{weight, weight-children, under_step, All-map}
use yzapi.Compliance.Matcher.Queue.{Under, first_child, Under-root, AtDepth, Levels-all}
use yzapi.Compliance.Matcher.Drain.{IsQueued, IsDone, links-IsDone}

module _ (order : ℕ → List ℕ) (m : Matcher) (l : ℕ → Bytes) (q : ℕ → Bytes → Type 0)
    (t : IsTrie m.size m.next l) (o : Outputs m l q) (filled : (i : ℕ) (s : Bytes) → q i s → s ≢ [])
    (walks : (n b : ℕ) → b < 256 → Memᴰ b (order n)) where
  abbrev walk : List (ℕ × ℕ)
  walk = edges (m.next 0) (order 0)

  abbrev roots : Matcher × List ℕ
  roots = root_links walk m []

  stage : IsStage m.size m.next l q t o.placed m
  stage = record {
    size_same = refl;
    next_same = refl;
    sound = record { own = o.listed; only = λ n i ln h. (l n, Pre-refl (l n), o.sound n i ln h) };
  }

  visited : IsVisited m.size m.next l q t o.placed walk m [] roots
  visited =
      root_links-IsVisited m.size m.next l q t o.placed filled walk m []
        (edges-next (m.next 0) (order 0)) stage

  children :
      (es : List (ℕ × ℕ))
      → All (λ e. m.next 0 e.0 ≡ some e.1) es
      → All (λ n. (n < m.size) × (n ≢ 0) × (length (l n) ≡ 1)) (map child_of es)
  children [] ok = tt
  children ((b, c) ∷ es) (e, ok) =
      let (lc, more, _, f) = t.down 0 b c t.inhabited e in
      (
        (lc, λ z. omega (arith, more, z), omega (arith, ap length f, ap length t.root)),
        children es ok,
      )

  abbrev GoodNow : ℕ → Type 0
  GoodNow = Good m.size m.next l q t o.placed roots.0

  root-Good : Good m.size m.next l q t o.placed m 0
  root-Good = (
    λ nz. absurd (nz refl),
    λ i s p h. elim (List-cases s) [
      | inl e ↦ absurd (filled i s h e)
      | inr (x, r, e) ↦ absurd (omega (arith, Pre-length s (l 0) p, ap length e, ap length t.root))
    ],
  )

  covers :
      (n : ℕ) → n < m.size → GoodNow n ⊎ ((x : ℕ) × Memᴰ x (map child_of walk) × Under m.next x n)
  covers n ln = elim (Under-root m.size m.next l t (l n) n ln refl) [
    | inl z ↦ inl (subst GoodNow (sym z) (visited.keeps 0 t.inhabited root-Good))
    | inr u ↦
        let (b, c, e, r) = first_child m.next 0 n u in
        let (_, _, byte, _) = t.down 0 b c t.inhabited e in
        let listed : Memᴰ (b, c) walk = edges-all (m.next 0) (order 0) b c (walks 0 b byte) e in
        elim r [
          | inl same ↦ inl (
              subst GoodNow (sym same)
                (All-mem (λ a. GoodNow a.1) walk visited.gives (b, c) listed))
          | inr below ↦ inr (c, map-mem walk b c listed, below)
        ]
  ]

  queued : IsQueued order m.size m.next l q t o.placed walks roots.0 (map child_of walk)
  queued = record {
    stage = visited.stage;
    depth = 1;
    levels = Levels-all l 1 (map child_of walk) (
        All-map (λ n. (n < m.size) × (n ≢ 0) × (length (l n) ≡ 1)) (AtDepth l 1) (λ n p. p.2)
          (map child_of walk) (children walk (edges-next (m.next 0) (order 0))));
    nodes = λ n h.
        let (a, b, _) =
          All-mem (λ n. (n < m.size) × (n ≢ 0) × (length (l n) ≡ 1)) (map child_of walk)
            (children walk (edges-next (m.next 0) (order 0))) n h in
        (a, b);
    covered = covers;
  }

  enough : weight (under order m.next m.size) roots.1 ≤ under order m.next m.size 0
  enough =
      let w = under order m.next m.size in
      omega (
        arith,
        ap (weight w) visited.queued,
        weight-children w [] walk,
        under_step order m.size m.next l t 0 t.inhabited,
      )

  pub build_links-IsDone : IsDone order m.size m.next l q t o.placed walks (build_links order m)
  build_links-IsDone =
      links-IsDone order m.size m.next l q t o.placed walks (under order m.next m.size 0) roots.0
        roots.1
        (subst (IsQueued order m.size m.next l q t o.placed walks roots.0) (sym visited.queued)
          queued)
        enough

nil-ne : {b : ℕ} {r : Bytes} → [] ≡ b ∷ r → ⊥
nil-ne e = cons≢nil (sym e)

-- the empty trie
empty-Holds : Holds empty_matcher (λ i s. ⊥)
empty-Holds = (
  λ n. [],
  record {
    root = refl;
    inhabited = omega arith;
    down = λ n b c ln e. absurd (none-ne-some c e);
    up = λ c b r lc e. absurd (nil-ne e);
    one = λ n k ln lk e. omega arith;
    short = λ n ln. omega arith;
  },
  record {
    placed = λ i s h. absurd h;
    listed = λ n i ln h. absurd h;
    sound = λ n i ln h. absurd (not-nil h);
  },
)

pub Numbered-filled : (k : ℕ) (ps : List Bytes) (i : ℕ) (s : Bytes) → Numbered k ps i s → s ≢ []
Numbered-filled k [] i s h = absurd h
Numbered-filled k (p ∷ ps) i s (inl (_, e, d)) =
    λ z. d (sym (reverse-reverse p) ∙ ap reverse (sym e ∙ z))
Numbered-filled k (p ∷ ps) i s (inr h) = Numbered-filled (suc k) ps i s h

pub patterns-Holds :
    (ps : List Bytes) → All IsText ps → Holds (add_patterns 0 ps empty_matcher) (Numbered 0 ps)
patterns-Holds ps bytes =
    let (l, t, o) = add_patterns-Holds 0 ps empty_matcher (λ i s. ⊥) bytes empty-Holds in
    (
      l,
      t,
      Outputs-iff (add_patterns 0 ps empty_matcher) l (λ i s. ⊥ ⊎ Numbered 0 ps i s) (Numbered 0 ps)
          (λ i s. (λ h. elim h [ inl none_left ↦ absurd none_left | inr a ↦ a ], inr)) o,
    )
