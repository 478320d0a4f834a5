-- ===== src/Compliance/Matcher/Roots.antt =====
-- The first loop of internal/compliance/aho.go over the queue's first nodes: the children of the root.
use yzapi.Base.{
  ℕ, ◌≡◌, sym, ap, ◌≢◌, inl, inr, Option, some, List, [], ◌∷◌, ◌++◌, append-nil, update, subst,
  length, arith, List-cases,
}
use yzapi.Base.Pick.{All}
use yzapi.Health.Truncate.{Bytes}
use yzapi.Compliance.Matcher.{Matcher, root_links}
use yzapi.Compliance.Matcher.Pre.{Pre, Pre-length, Pre-same, Pre-refl}
use yzapi.Compliance.Matcher.Trie.{IsTrie, Node}
use yzapi.Compliance.Matcher.Follow.{IsBest}
use yzapi.Compliance.Matcher.Links.{IsSound, IsFull, linked_here, linked_other}
use yzapi.Compliance.Matcher.Visit.{IsStage, IsVisited, IsVisited-cons}

module _ (size : ℕ) (next : ℕ → ℕ → Option ℕ) (l : ℕ → Bytes) (q : ℕ → Bytes → Type 0)
    (t : IsTrie size next l) (placed : (i : ℕ) (s : Bytes) → q i s → Node size next l s)
    (filled : (i : ℕ) (s : Bytes) → q i s → s ≢ []) where
  root_length : (b c : ℕ) → next 0 b ≡ some c → length (l c) ≡ 1
  root_length b c e =
      let (_, _, _, g) = t.down 0 b c t.inhabited e in omega (arith, ap length g, ap length t.root)

  root-IsBest : (b c : ℕ) → next 0 b ≡ some c → IsBest size next l (length (l c)) (l c) 0
  root-IsBest b c e = record {
    node = t.inhabited;
    prefix = subst (λ s. Pre s (l c)) (sym t.root) tt;
    under = omega (arith, ap length t.root, root_length b c e);
    longest = λ n ln p short. omega (arith, short, root_length b c e);
  }

  root-IsFull :
      (out : ℕ → List ℕ) (b c : ℕ)
      → IsSound size next l q out
      → next 0 b ≡ some c
      → IsFull size next l q out c
  root-IsFull out b c sound e i s p h = elim (List-cases s) [
    | inl empty ↦ absurd (filled i s h empty)
    | inr (x, r, f) ↦
        let (lc, _, _, _) = t.down 0 b c t.inhabited e in
        sound.own c i lc (
          subst (q i)
            (Pre-same s (l c) (l c) p (Pre-refl (l c))
              (omega (arith, Pre-length s (l c) p, root_length b c e, ap length f)))
            h)
  ]

  pub root_links-IsVisited :
      (es : List (ℕ × ℕ)) (m : Matcher) (queue : List ℕ)
      → All (λ e. next 0 e.0 ≡ some e.1) es
      → IsStage size next l q t placed m
      → IsVisited size next l q t placed es m queue (root_links es m queue)
  unfolding root_links
  root_links-IsVisited [] m queue ok st = record {
    stage = st;
    keeps = λ n ln g. g;
    gives = tt;
    queued = sym (append-nil queue);
  }
  root_links-IsVisited ((b, c) ∷ es) m queue (e, ok) st =
      let k : Matcher = record m { fail = update m.fail c 0 } in
      let (lc, _, _, _) = t.down 0 b c t.inhabited e in
      IsVisited-cons size next l q t placed b c es m k queue (root_links es k (queue ++ (c ∷ [])))
        lc
        (λ n ln g.
          linked_other size next l q m.fail m.out m.out c 0 (root-IsBest b c e) (λ a i h. h) n g)
        (linked_here size next l q m.fail m.out m.out c 0 (root-IsBest b c e)
          (root-IsFull m.out b c st.sound e))
        (root_links-IsVisited es k (queue ++ (c ∷ [])) ok
          (record { size_same = st.size_same; next_same = st.next_same; sound = st.sound }))
