-- ===== src/Compliance/Matcher/Visit.antt =====
-- Lemmas on the loop of internal/compliance/aho.go over the children of a node that has left the queue.
use yzapi.Base.{
  ℕ, ◌≤◌, ◌<◌, ◌≡◌, sym, ap, ◌∙◌, ◌≢◌, inl, inr, Option, some, List, [], ◌∷◌, ◌++◌, map,
  append_assoc, append-nil, subst, length, arith, Option-cases,
}
use yzapi.Base.Pick.{All}
use mathlib.Core.List.{Memᴰ}
use mathlib.Core.List.Memᴰ.{head, tail, not-nil}
use yzapi.Health.Truncate.{Bytes}
use yzapi.Compliance.Matcher.{Matcher, candidate, follow, other_than, link, visit, edges}
use yzapi.Compliance.Matcher.Trie.{IsTrie, Node}
use yzapi.Compliance.Matcher.Follow.{IsBest}
use yzapi.Compliance.Matcher.Links.{
  IsSound, IsGood, linked_here, linked_other, merged-Grows, merged-IsSound, merged-IsFull,
  link-IsBest,
}

-- the entries of `edges` are those of the map
pub edges-next : (f : ℕ → Option ℕ) (bs : List ℕ) → All (λ e. f e.0 ≡ some e.1) (edges f bs)
unfolding edges
edges-next f [] = tt
edges-next f (b ∷ bs) = elim (Option-cases (f b)) [
  | inl e ↦ rw (e, All) (edges-next f bs)
  | inr (c, e) ↦ rw (e, All) (e, edges-next f bs)
]

pub edges-all :
    (f : ℕ → Option ℕ) (bs : List ℕ) (b c : ℕ) → Memᴰ b bs → f b ≡ some c → Memᴰ (b, c) (edges f bs)
unfolding edges
edges-all f [] b c h e = absurd (not-nil h)
edges-all f (x ∷ bs) b c (head same) e =
    rw (sym (ap f same) ∙ e, edges) (head (ap (λ a. (a, c)) same))
edges-all f (x ∷ bs) b c (tail h) e = elim (Option-cases (f x)) [
  | inl g ↦ rw (g, edges) (edges-all f bs b c h e)
  | inr (_, g) ↦ rw (g, edges) (tail (edges-all f bs b c h e))
]

pub All-mem : {A : Type 0} (P : A → Type 0) (xs : List A) → All P xs → (x : A) → Memᴰ x xs → P x
All-mem P [] ok x h = absurd (not-nil h)
All-mem P (y ∷ xs) (p, ok) x (head e) = subst P (sym e) p
All-mem P (y ∷ xs) (p, ok) x (tail h) = All-mem P xs ok x h

abbrev pub child_of : ℕ × ℕ → ℕ
child_of (b, c) = c

pub map-mem : (es : List (ℕ × ℕ)) (b c : ℕ) → Memᴰ (b, c) es → Memᴰ c (map child_of es)
map-mem [] b c h = absurd (not-nil h)
map-mem (e ∷ es) b c (head g) = head (ap child_of g)
map-mem (e ∷ es) b c (tail h) = tail (map-mem es b c h)

module _ (size : ℕ) (next : ℕ → ℕ → Option ℕ) (l : ℕ → Bytes) (q : ℕ → Bytes → Type 0)
    (t : IsTrie size next l) (placed : (i : ℕ) (s : Bytes) → q i s → Node size next l s) where
  abbrev pub Good : Matcher → ℕ → Type 0
  Good m = IsGood size next l q m.fail m.out

  -- a matcher in the making: the trie is as it was
  pub record IsStage (m : Matcher) : Type 0 where
    pub size_same : m.size ≡ size
    pub next_same : m.next ≡ next
    pub sound : IsSound size next l q m.out

  -- what the walk over the children leaves
  pub record IsVisited (es : List (ℕ × ℕ)) (m : Matcher) (queue : List ℕ) (r : Matcher × List ℕ)
      : Type 0 where
    pub stage : IsStage r.0
    pub keeps : (n : ℕ) → n < size → Good m n → Good r.0 n
    pub gives : All (λ e. Good r.0 e.1) es
    pub queued : r.1 ≡ queue ++ map child_of es

  -- one child, and then the others
  pub IsVisited-cons :
      (b c : ℕ) (es : List (ℕ × ℕ)) (m k : Matcher) (queue : List ℕ) (r : Matcher × List ℕ)
      → c < size
      → ((n : ℕ) → n < size → Good m n → Good k n)
      → Good k c
      → IsVisited es k (queue ++ (c ∷ [])) r
      → IsVisited ((b, c) ∷ es) m queue r
  IsVisited-cons b c es m k queue r lc keeps good v = record {
    stage = v.stage;
    keeps = λ n ln g. v.keeps n ln (keeps n ln g);
    gives = (v.keeps c lc good, v.gives);
    queued = v.queued ∙ append_assoc queue (c ∷ []) (map child_of es);
  }

  module _ (cur : ℕ) (lt : cur < size) (nz : cur ≢ 0) where
    found-IsBest :
        (m : Matcher) (b c : ℕ)
        → IsStage m
        → next cur b ≡ some c
        → ((n : ℕ) → n < size → length (l n) ≤ length (l cur) → Good m n)
        → IsBest size next l
            (length (l c))
            (l c)
            (follow (candidate m b c) m.fail m.size (m.fail cur))
    found-IsBest m b c st e good =
        subst
          (λ nx.
            IsBest size next l (length (l c)) (l c)
              (follow (λ f. other_than c (nx f b)) m.fail m.size (m.fail cur)))
          (sym st.next_same)
          (subst
            (λ k.
              IsBest size next l (length (l c)) (l c)
                (follow (λ f. other_than c (next f b)) m.fail k (m.fail cur)))
            (sym st.size_same)
            (link-IsBest size next l q t m.fail cur b c lt nz e
              (λ n ln short. (good n ln short).0)))

    pub visit-IsVisited :
        (es : List (ℕ × ℕ)) (m : Matcher) (queue : List ℕ)
        → All (λ e. next cur e.0 ≡ some e.1) es
        → IsStage m
        → ((n : ℕ) → n < size → length (l n) ≤ length (l cur) → Good m n)
        → IsVisited es m queue (visit cur es m queue)
    unfolding visit
    visit-IsVisited [] m queue ok st good = record {
      stage = st;
      keeps = λ n ln g. g;
      gives = tt;
      queued = sym (append-nil queue);
    }
    visit-IsVisited ((b, c) ∷ es) m queue (e, ok) st good =
        let f = follow (candidate m b c) m.fail m.size (m.fail cur) in
        let best : IsBest size next l (length (l c)) (l c) f = found-IsBest m b c st e good in
        let (lc, _, _, g) = t.down cur b c lt e in
        let keeps : (n : ℕ) → n < size → Good m n → Good (link c f m) n = λ n ln h.
          linked_other size next l q m.fail m.out (link c f m).out c f best
            (merged-Grows size next l q m.out c f) n h in
        IsVisited-cons b c es m (link c f m) queue (visit cur es (link c f m) (queue ++ (c ∷ [])))
          lc keeps
          (linked_here size next l q m.fail m.out (link c f m).out c f best (
            merged-IsFull size next l q m.out c f lc best st.sound placed
              (good f best.node (omega (arith, best.under, ap length g))).1))
          (visit-IsVisited es (link c f m) (queue ++ (c ∷ [])) ok
            (record {
              size_same = st.size_same;
              next_same = st.next_same;
              sound = merged-IsSound size next l q m.out c f lc best st.sound;
            })
            (λ n ln short. keeps n ln (good n ln short)))
