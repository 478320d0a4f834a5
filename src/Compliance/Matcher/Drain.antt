-- ===== src/Compliance/Matcher/Drain.antt =====
-- Lemmas on the loop over the queue of internal/compliance/aho.go.
use yzapi.Base.{
  ℕ, zero, suc, ◌≤◌, ◌<◌, ◌≡◌, refl, sym, ap, ◌∙◌, ◌≢◌, ◌⊎◌, inl, inr, Option, some, List, [], ◌∷◌,
  ◌++◌, map, subst, length, arith,
}
use yzapi.Base.Pick.{All}
use mathlib.Core.List.{Memᴰ}
use mathlib.Core.List.Memᴰ.{
  head, tail, not-nil, append_cases, append_left, append_right, cases_cons,
}
use yzapi.Health.Truncate.{Bytes}
use yzapi.Compliance.Matcher.{Matcher, links, visit, edges, under, sum_children}
use yzapi.Compliance.Matcher.Trie.{IsTrie, Node}
use yzapi.Compliance.Matcher.Visit.{
  Good, IsStage, IsVisited, visit-IsVisited, edges-next, edges-all, All-mem, child_of, map-mem,
}
use yzapi.Compliance.Matcher.Fuel.{weight, weight-children, under_step, All-map}
use yzapi.Compliance.Matcher.Queue.{
  Under, first_child, Under-longer, AtDepth, Levels, Levels-append, Levels-head, Levels-least,
}

module _ (order : ℕ → List ℕ) (size : ℕ) (next : ℕ → ℕ → Option ℕ) (l : ℕ → Bytes)
    (q : ℕ → Bytes → Type 0) (t : IsTrie size next l)
    (placed : (i : ℕ) (s : Bytes) → q i s → Node size next l s)
    (walks : (n b : ℕ) → b < 256 → Memᴰ b (order n)) where
  pub record IsQueued (m : Matcher) (queue : List ℕ) : Type 0 where
    pub stage : IsStage size next l q t placed m
    pub depth : ℕ
    pub levels : Levels l depth queue
    pub nodes : (n : ℕ) → Memᴰ n queue → (n < size) × (n ≢ 0)
    pub covered :
        (n : ℕ)
        → n < size
        → Good size next l q t placed m n ⊎ ((x : ℕ) × Memᴰ x queue × Under next x n)

  -- the nodes with texts no longer than that of the first node in the queue are final
  final :
      (m : Matcher) (cur : ℕ) (queue : List ℕ)
      → IsQueued m (cur ∷ queue)
      → (n : ℕ) → n < size
      → length (l n) ≤ length (l cur)
      → Good size next l q t placed m n
  final m cur queue k n ln short = elim (k.covered n ln) [
    | inl good ↦ good
    | inr (x, h, u) ↦
        let (_, more) = Under-longer size next l t x n (k.nodes x h).0 u in
        elim (cases_cons h) [
          | inl e ↦ absurd (omega (arith, more, short, ap (λ y. length (l y)) e))
          | inr r ↦ absurd (
              omega (
                arith,
                more,
                short,
                Levels-least l (length (l cur)) x queue (Levels-head l k.depth cur queue k.levels)
                    r,
              ))
        ]
  ]

  module _ (m : Matcher) (cur : ℕ) (queue : List ℕ) (k : IsQueued m (cur ∷ queue)) where
    abbrev walk : List (ℕ × ℕ)
    walk = edges (m.next cur) (order cur)

    here : (cur < size) × (cur ≢ 0)
    here = k.nodes cur (head refl)

    walk-next : All (λ e. next cur e.0 ≡ some e.1) walk
    walk-next =
        subst (λ nx. All (λ e. nx cur e.0 ≡ some e.1) walk) k.stage.next_same
          (edges-next (m.next cur) (order cur))

    walk-all : (b c : ℕ) → next cur b ≡ some c → Memᴰ (b, c) walk
    walk-all b c e =
        let (_, _, byte, _) = t.down cur b c here.0 e in
        edges-all (m.next cur) (order cur) b c (walks cur b byte)
          (ap (λ nx. nx cur b) k.stage.next_same ∙ e)

    children :
        (es : List (ℕ × ℕ))
        → All (λ e. next cur e.0 ≡ some e.1) es
        → All (λ n. (n < size) × (n ≢ 0) × (length (l n) ≡ suc (length (l cur)))) (map child_of es)
    children [] ok = tt
    children ((b, c) ∷ es) (e, ok) =
        let (lc, more, _, f) = t.down cur b c here.0 e in
        ((lc, λ z. omega (arith, more, z), omega (arith, ap length f)), children es ok)

    visited : IsVisited size next l q t placed walk m queue (visit cur walk m queue)
    visited =
        visit-IsVisited size next l q t placed cur here.0 here.1 walk m queue walk-next k.stage
          (final m cur queue k)

    abbrev Still : ℕ → Type 0
    Still n =
        Good size next l q t placed (visit cur walk m queue).0 n
        ⊎ ((x : ℕ) × Memᴰ x (queue ++ map child_of walk) × Under next x n)

    -- a node under `cur` is a child, or under a child, which is in the queue
    below : (n : ℕ) → Under next cur n → Still n
    below n u =
        let (b, c, e, r) = first_child next cur n u in
        elim r [
          | inl same ↦ inl (
              subst (Good size next l q t placed (visit cur walk m queue).0) (sym same) (
                All-mem (λ a. Good size next l q t placed (visit cur walk m queue).0 a.1) walk
                  visited.gives (b, c) (walk-all b c e)))
          | inr under_child ↦
              inr (c, append_right queue (map-mem walk b c (walk-all b c e)), under_child)
        ]

    covers : (n : ℕ) → n < size → Still n
    covers n ln = elim (k.covered n ln) [
      | inl good ↦ inl (visited.keeps n ln good)
      | inr (x, h, u) ↦ elim (cases_cons h) [
        | inl e ↦ below n (subst (λ a. Under next a n) e u)
        | inr r ↦ inr (x, append_left (map child_of walk) r, u)
      ]
    ]

    visit-IsQueued : IsQueued (visit cur walk m queue).0 (visit cur walk m queue).1
    visit-IsQueued = subst (IsQueued (visit cur walk m queue).0) (sym visited.queued) (record {
      stage = visited.stage;
      depth = length (l cur);
      levels =
          Levels-append l (length (l cur)) queue (map child_of walk)
            (Levels-head l k.depth cur queue k.levels)
            (All-map (λ n. (n < size) × (n ≢ 0) × (length (l n) ≡ suc (length (l cur))))
              (AtDepth l (suc (length (l cur)))) (λ n p. p.2) (map child_of walk)
              (children walk walk-next));
      nodes = λ n h. elim (append_cases queue h) [
        | inl old ↦ k.nodes n (tail old)
        | inr new ↦
            let (a, b, _) =
              All-mem (λ n. (n < size) × (n ≢ 0) × (length (l n) ≡ suc (length (l cur))))
                (map child_of walk) (children walk walk-next) n new in
            (a, b)
      ];
      covered = covers;
    })

    lighter :
        suc (weight (under order next size) (visit cur walk m queue).1)
        ≡ weight (under order next size) (cur ∷ queue)
    lighter =
        let w = under order next size in
        omega (
          arith,
          ap (weight w) visited.queued,
          weight-children w queue walk,
          under_step order size next l t cur here.0,
          ap (λ nx. sum_children w (edges (nx cur) (order cur))) k.stage.next_same,
        )

  -- The loop's matcher: the trie as it was, and every node final
  abbrev pub IsDone : Matcher → Type 0
  IsDone m =
      IsStage size next l q t placed m × ((n : ℕ) → n < size → Good size next l q t placed m n)

  nothing_left : (m : Matcher) → IsQueued m [] → IsDone m
  nothing_left m k = (
    k.stage,
    λ n ln. elim (k.covered n ln) [ inl good ↦ good | inr (x, h, u) ↦ absurd (not-nil h) ],
  )

  pub links-IsDone :
      (fuel : ℕ) (m : Matcher) (queue : List ℕ)
      → IsQueued m queue
      → weight (under order next size) queue ≤ fuel
      → IsDone (links order fuel m queue)
  unfolding links
  links-IsDone zero m [] k enough = nothing_left m k
  links-IsDone zero m (cur ∷ queue) k enough = absurd (omega (arith, lighter m cur queue k, enough))
  links-IsDone (suc fuel) m [] k enough = nothing_left m k
  links-IsDone (suc fuel) m (cur ∷ queue) k enough =
      links-IsDone fuel (visit cur (walk m cur queue k) m queue).0
        (visit cur (walk m cur queue k) m queue).1 (visit-IsQueued m cur queue k)
        (omega (arith, lighter m cur queue k, enough))
