-- ===== src/Compliance/Matcher/Queue.antt =====
-- The queue of internal/compliance/aho.go: the lengths of its texts, and the nodes under its nodes.
use yzapi.Base.{
  ℕ, suc, ◌≤◌, ◌<◌, ◌≡◌, refl, sym, ap, ◌∙◌, ◌⊎◌, inl, inr, Option, some, List, [], ◌∷◌, ◌++◌,
  subst, length, arith,
}
use yzapi.Base.Pick.{All}
use mathlib.Core.List.{Memᴰ}
use mathlib.Core.List.Memᴰ.{not-nil, cases_cons}
use yzapi.Health.Truncate.{Bytes}
use yzapi.Compliance.Matcher.Trie.{IsTrie}
use yzapi.Compliance.Matcher.Visit.{All-mem}

-- `Under next x n`: the node `n` is a child of `x`, or of a node under it.
pub data Under (next : ℕ → ℕ → Option ℕ) (x : ℕ) : ℕ → Type 0 where
  child : (b c : ℕ) → next x b ≡ some c → Under next x c
  deeper : (b p c : ℕ) → Under next x p → next p b ≡ some c → Under next x c

-- the child that the way down starts with
pub first_child :
    (next : ℕ → ℕ → Option ℕ) (x n : ℕ)
    → Under next x n
    → (b : ℕ) × (c : ℕ) × (next x b ≡ some c) × ((n ≡ c) ⊎ Under next c n)
first_child next x n (child b c e) = (b, c, e, inl refl)
first_child next x n (deeper b p c u e) =
    let (a, k, f, r) = first_child next x p u in
    (
      a,
      k,
      f,
      inr (elim r [
        | inl same ↦ child b c (ap (λ y. next y b) (sym same) ∙ e)
        | inr below ↦ deeper b p c below e
      ]),
    )

module _ (size : ℕ) (next : ℕ → ℕ → Option ℕ) (l : ℕ → Bytes) (t : IsTrie size next l) where
  pub Under-longer :
      (x n : ℕ) → x < size → Under next x n → (n < size) × (length (l x) < length (l n))
  Under-longer x n lt (child b c e) =
      let (lc, _, _, f) = t.down x b c lt e in (lc, omega (arith, ap length f))
  Under-longer x n lt (deeper b p c u e) =
      let (lp, more) = Under-longer x p lt u in
      let (lc, _, _, f) = t.down p b c lp e in (lc, omega (arith, more, ap length f))

  -- all nodes are under the root
  pub Under-root : (s : Bytes) (n : ℕ) → n < size → l n ≡ s → (n ≡ 0) ⊎ Under next 0 n
  Under-root [] n lt e = inl (t.one n 0 lt t.inhabited (e ∙ sym t.root))
  Under-root (b ∷ s) n lt e =
      let (p, lp, f, g) = t.up n b s lt e in
      inr (elim (Under-root s p lp f) [
        | inl z ↦ child b n (ap (λ y. next y b) (sym z) ∙ g)
        | inr u ↦ deeper b p n u g
      ])

-- the texts' lengths along the queue: some of length `d`, and then some longer by one
module _ (l : ℕ → Bytes) where
  abbrev pub AtDepth : ℕ → ℕ → Type 0
  AtDepth d n = length (l n) ≡ d

  abbrev pub Levels : ℕ → List ℕ → Type 0
  Levels d [] = Unit
  Levels d (n ∷ ns) =
      ((length (l n) ≡ d) × Levels d ns) ⊎ ((length (l n) ≡ suc d) × All (AtDepth (suc d)) ns)

  pub Levels-all : (d : ℕ) (ns : List ℕ) → All (AtDepth d) ns → Levels d ns
  Levels-all d [] ok = tt
  Levels-all d (n ∷ ns) (e, ok) = inl (e, Levels-all d ns ok)

  All-append :
      (d : ℕ) (ns ks : List ℕ)
      → All (AtDepth d) ns
      → All (AtDepth d) ks
      → All (AtDepth d) (ns ++ ks)
  All-append d [] ks a b = b
  All-append d (n ∷ ns) ks (e, a) b = (e, All-append d ns ks a b)

  pub Levels-append :
      (d : ℕ) (ns ks : List ℕ) → Levels d ns → All (AtDepth (suc d)) ks → Levels d (ns ++ ks)
  Levels-append d [] [] a b = tt
  Levels-append d [] (k ∷ ks) a (e, b) = inr (e, b)
  Levels-append d (n ∷ ns) ks (inl (e, a)) b = inl (e, Levels-append d ns ks a b)
  Levels-append d (n ∷ ns) ks (inr (e, a)) b = inr (e, All-append (suc d) ns ks a b)

  pub Levels-head : (d n : ℕ) (ns : List ℕ) → Levels d (n ∷ ns) → Levels (length (l n)) ns
  Levels-head d n ns (inl (e, a)) = subst (λ k. Levels k ns) (sym e) a
  Levels-head d n ns (inr (e, a)) = subst (λ k. Levels k ns) (sym e) (Levels-all (suc d) ns a)

  pub Levels-least : (d n : ℕ) (ns : List ℕ) → Levels d ns → Memᴰ n ns → d ≤ length (l n)
  Levels-least d n [] a h = absurd (not-nil h)
  Levels-least d n (k ∷ ns) a h = elim (cases_cons h) [
    | inl e ↦ elim a [
      | inl (f, _) ↦ omega (arith, ap (λ x. length (l x)) e, f)
      | inr (f, _) ↦ omega (arith, ap (λ x. length (l x)) e, f)
    ]
    | inr r ↦ elim a [
      | inl (_, rest) ↦ Levels-least d n ns rest r
      | inr (_, rest) ↦ omega (arith, All-mem (AtDepth (suc d)) ns rest n r)
    ]
  ]
