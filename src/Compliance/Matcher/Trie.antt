-- ===== src/Compliance/Matcher/Trie.antt =====
-- The nodes of the automaton of internal/compliance/aho.go as a trie: `l n` is the text that leads to
-- the node `n`, last byte first.
use yzapi.Base.{
  ℕ, suc, ◌≤◌, ◌<◌, ◌≡◌, refl, sym, ap, ◌∙◌, ◌≢◌, ◌⊎◌, inl, inr, Option, none, some, [], ◌∷◌,
  update, update_self, update_other, subst, ap₂, length, arith,
}
use native.Mathlib.Decide.{ℕ_discrete}
use mathlib.Core.Option.{some-injective, none-ne-some}
use yzapi.Health.Truncate.{Bytes}
use yzapi.Compliance.Matcher.{Matcher, new_child}

pub cons_head : {b c : ℕ} {r s : Bytes} → b ∷ r ≡ c ∷ s → b ≡ c
cons_head e = cc

pub cons_tail : {b c : ℕ} {r s : Bytes} → b ∷ r ≡ c ∷ s → r ≡ s
cons_tail e = cc

pub not_both : {o : Option ℕ} {a : ℕ} → o ≡ none → o ≡ some a → ⊥
not_both {o} {a} p q = none-ne-some a (sym p ∙ q)

module _ (size : ℕ) (next : ℕ → ℕ → Option ℕ) (l : ℕ → Bytes) where
  pub record IsTrie : Type 0 where
    pub root : l 0 ≡ []
    pub inhabited : 0 < size
    pub down :
        (n b c : ℕ)
        → n < size
        → next n b ≡ some c
        → (c < size) × (n < c) × (b < 256) × (l c ≡ b ∷ l n)
    pub up :
        (c b : ℕ) (r : Bytes)
        → c < size
        → l c ≡ b ∷ r
        → (n : ℕ) × (n < size) × (l n ≡ r) × (next n b ≡ some c)
    pub one : (n k : ℕ) → n < size → k < size → l n ≡ l k → n ≡ k
    pub short : (n : ℕ) → n < size → length (l n) ≤ n

  abbrev pub Node : Bytes → Type 0
  Node s = (c : ℕ) × (c < size) × (l c ≡ s)

  pub next_of : IsTrie → (n b c : ℕ) → n < size → c < size → l c ≡ b ∷ l n → next n b ≡ some c
  next_of t n b c ln lc e =
      let (k, lk, ek, f) = t.up c b (l n) lc e in
      subst (λ a. next a b ≡ some c) (t.one k n lk ln ek) f

module _ (m : Matcher) (l : ℕ → Bytes) (cur b : ℕ) where
  abbrev pub grown : ℕ → Bytes
  grown = update l m.size (b ∷ l cur)

  next_here : (new_child b cur m).next cur b ≡ some m.size
  next_here = ground arith

  next_beside :
      (n c : ℕ) → n < m.size → (n ≢ cur) ⊎ (c ≢ b) → (new_child b cur m).next n c ≡ m.next n c
  next_beside n c ln (inl d) = ground arith
  next_beside n c ln (inr d) = ground arith

  next_new : cur < m.size → (c : ℕ) → (new_child b cur m).next m.size c ≡ none
  next_new lt c = ground arith

  pub grown-old : (n : ℕ) → n < m.size → grown n ≡ l n
  grown-old n lt = update_other l m.size n (b ∷ l cur) (omega arith)

  pub grown-new : grown m.size ≡ b ∷ l cur
  grown-new = update_self l m.size m.size (b ∷ l cur) refl

  module _ (t : IsTrie m.size m.next l) (lt : cur < m.size) (byte : b < 256)
      (fresh : m.next cur b ≡ none) where
    -- the text of the new node is not that of an old one
    not_old : (n : ℕ) → n < m.size → l n ≢ b ∷ l cur
    not_old n ln e = not_both fresh (next_of m.size m.next l t cur b n lt ln e)

    down_old :
        (n c k : ℕ)
        → n < m.size
        → m.next n c ≡ some k
        → (k < suc m.size) × (n < k) × (c < 256) × (grown k ≡ c ∷ grown n)
    down_old n c k ln e =
        let (lk, nk, lc, f) = t.down n c k ln e in
        (omega arith, nk, lc, grown-old k lk ∙ f ∙ sym (ap (λ r. c ∷ r) (grown-old n ln)))

    down_here :
        (n c k : ℕ)
        → n ≡ cur
        → c ≡ b
        → m.size ≡ k
        → (k < suc m.size) × (n < k) × (c < 256) × (grown k ≡ c ∷ grown n)
    down_here n c k q r h = (
      omega arith,
      omega arith,
      omega arith,
      sym (ap grown h)
          ∙ grown-new
          ∙ ap₂ (λ a s. a ∷ s) (sym r) (sym (ap grown q ∙ grown-old cur lt)),
    )

    down_new :
        (n c k : ℕ)
        → n < suc m.size
        → (new_child b cur m).next n c ≡ some k
        → (k < suc m.size) × (n < k) × (c < 256) × (grown k ≡ c ∷ grown n)
    down_new n c k ln e = elim (ℕ_discrete n m.size) [
      | yes p ↦ absurd (not_both (ap (λ a. (new_child b cur m).next a c) p ∙ next_new lt c) e)
      | no d ↦ elim (ℕ_discrete n cur) [
        | yes q ↦ elim (ℕ_discrete c b) [
          | yes r ↦ down_here n c k q r (
              some-injective m.size k
                (sym next_here ∙ sym (ap₂ (λ a s. (new_child b cur m).next a s) q r) ∙ e))
          | no dr ↦ down_old n c k (omega arith) (sym (next_beside n c (omega arith) (inr dr)) ∙ e)
        ]
        | no dq ↦ down_old n c k (omega arith) (sym (next_beside n c (omega arith) (inl dq)) ∙ e)
      ]
    ]

    one_new : (n k : ℕ) → n < suc m.size → k < suc m.size → grown n ≡ grown k → n ≡ k
    one_new n k ln lk e = elim (ℕ_discrete n m.size) [
      | yes p ↦ elim (ℕ_discrete k m.size) [
        | yes q ↦ p ∙ sym q
        | no dq ↦ absurd (
            not_old k (omega arith)
              (sym (grown-old k (omega arith)) ∙ sym e ∙ ap grown p ∙ grown-new))
      ]
      | no d ↦ elim (ℕ_discrete k m.size) [
        | yes q ↦
            absurd (
              not_old n (omega arith)
                (sym (grown-old n (omega arith)) ∙ e ∙ ap grown q ∙ grown-new))
        | no dq ↦
            t.one n k (omega arith) (omega arith)
              (sym (grown-old n (omega arith)) ∙ e ∙ grown-old k (omega arith))
      ]
    ]

    short_new : (n : ℕ) → n < suc m.size → length (grown n) ≤ n
    short_new n ln = elim (ℕ_discrete n m.size) [
      | yes p ↦ rw p (rw grown-new (omega (arith, t.short cur lt)))
      | no d ↦ rw (grown-old n (omega arith)) (t.short n (omega arith))
    ]

    -- an edge that is there is not the new one
    apart : (n d c : ℕ) → m.next n d ≡ some c → (n ≢ cur) ⊎ (d ≢ b)
    apart n d c f = elim (ℕ_discrete n cur) [
      | yes p ↦ inr (λ q. not_both fresh (sym (ap₂ m.next p q) ∙ f))
      | no dn ↦ inl dn
    ]

    up_new :
        (c d : ℕ) (r : Bytes)
        → c < suc m.size
        → grown c ≡ d ∷ r
        → (n : ℕ) × (n < suc m.size) × (grown n ≡ r) × ((new_child b cur m).next n d ≡ some c)
    up_new c d r lc e = elim (ℕ_discrete c m.size) [
      | yes p ↦
          let q : b ∷ l cur ≡ d ∷ r = sym grown-new ∙ ap grown (sym p) ∙ e in
          (
            cur,
            omega arith,
            grown-old cur lt ∙ cons_tail q,
            ap ((new_child b cur m).next cur) (sym (cons_head q)) ∙ next_here ∙ ap some (sym p),
          )
      | no dc ↦
          let (n, ln, en, f) = t.up c d r (omega arith) (sym (grown-old c (omega arith)) ∙ e) in
          (n, omega arith, grown-old n ln ∙ en, next_beside n d ln (apart n d c f) ∙ f)
    ]

    pub grown-IsTrie : IsTrie (suc m.size) (new_child b cur m).next grown
    grown-IsTrie = record {
      root = grown-old 0 t.inhabited ∙ t.root;
      inhabited = omega arith;
      down = down_new;
      up = up_new;
      one = one_new;
      short = short_new;
    }
