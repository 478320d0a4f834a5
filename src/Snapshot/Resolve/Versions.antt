-- ===== src/Snapshot/Resolve/Versions.antt =====
-- The version match of `ResolveDetail` in internal/gateway/snapshot.go, which walks over a map in an
-- order that Go leaves open.
use mathlib.Core.List.{Permᴰ}
use mathlib.Core.List.Permᴰ
use yzapi.Base.{
  append-nil, append_assoc, ℕ, suc, max, ◌≤◌, ◌≡◌, refl, sym, subst, ◌∙◌, ap, ap₂, inl, inr, String,
  Bool, true, Option, none, some, List, [], ◌∷◌, ◌++◌, not, ◌&&◌, if◌then◌else◌, ◌==◌, Bool-cases,
  arith,
}
use yzapi.Base.Int.{ℤ, pos, negsuc, ltb_ℤ, eq_ℤ}
use yzapi.Upstream.{ProtoType}
use yzapi.Snapshot.{Snapshot}
use yzapi.Snapshot.Resolve.{
  Resolution, found, ambiguous, pass, wanted, Candidate, Best, add, no_match, qualifies, candidate,
  scan, settle,
}

-- Gathering what a test accepts, and permutations of it
module _ {ℓ κ} {A : Type ℓ} {B : Type κ} (f : A → Option B) where
  abbrev push : Option B → List B → List B
  push none bs = bs
  push (some b) bs = b ∷ bs

  unfoldable pub gather : List A → List B
  gather [] = []
  gather (a ∷ rest) = push (f a) (gather rest)

  push-Perm : (o : Option B) {xs ys : List B} → Permᴰ xs ys → Permᴰ (push o xs) (push o ys)
  push-Perm none p = p
  push-Perm (some b) p = Permᴰ.cons refl p

  push-swap : (o o' : Option B) (xs : List B) → Permᴰ (push o (push o' xs)) (push o' (push o xs))
  push-swap none o' xs = Permᴰ.refl (push o' xs)
  push-swap (some b) none xs = Permᴰ.refl (b ∷ xs)
  push-swap (some b) (some b') xs = Permᴰ.swap refl refl

  pub gather-Perm : {xs ys : List A} → Permᴰ xs ys → Permᴰ (gather xs) (gather ys)
  unfolding gather
  gather-Perm Permᴰ.nil = Permᴰ.nil
  gather-Perm (Permᴰ.cons {a} {b} {l₁} {l₂} e p) =
      subst (λ x. Permᴰ (push (f a) (gather l₁)) (push (f x) (gather l₂))) e
        (push-Perm (f a) (gather-Perm p))
  gather-Perm (Permᴰ.swap {a} {b} {a'} {b'} {l} e e') =
      subst (λ x. Permᴰ (push (f a) (push (f b) (gather l))) (push (f a') (push (f x) (gather l))))
        e
        (subst
          (λ x. Permᴰ (push (f a) (push (f b) (gather l))) (push (f x) (push (f a) (gather l)))) e'
          (push-swap (f a) (f b) (gather l)))
  gather-Perm (Permᴰ.trans p q) = Permᴰ.trans (gather-Perm p) (gather-Perm q)

-- Nothing, one element, or more than one
data View {ℓ} (A : Type ℓ) : Type ℓ where
  empty : View A
  one : A → View A
  many : View A

module _ {ℓ} {A : Type ℓ} where
  abbrev cover : A → View A → View A
  cover a empty = one a
  cover a (one b) = many
  cover a many = many

  abbrev view : List A → View A
  view [] = empty
  view (a ∷ rest) = cover a (view rest)

  cover_twice : (a b : A) (v : View A) → cover a (cover b v) ≡ many
  cover_twice a b empty = refl
  cover_twice a b (one c) = refl
  cover_twice a b many = refl

  view-Perm : {xs ys : List A} → Permᴰ xs ys → view xs ≡ view ys
  view-Perm Permᴰ.nil = refl
  view-Perm (Permᴰ.cons e p) = ap₂ cover e (view-Perm p)
  view-Perm (Permᴰ.swap {a} {b} {a'} {b'} {l} e e') =
      cover_twice a b (view l) ∙ sym (cover_twice a' b' (view l))
  view-Perm (Permᴰ.trans p q) = view-Perm p ∙ view-Perm q

-- The candidates of the entries that qualify
abbrev pub tested : Snapshot → Option ProtoType → String → String × String → Option Candidate
tested s want ln e = if qualifies s want ln e then some (candidate s e) else none

unfoldable pub longest : List Candidate → ℕ
longest [] = 0
longest (c ∷ cs) = max c.size (longest cs)

abbrev pub if_size : ℕ → Candidate → Option Candidate
if_size n c = if c.size == n then some c else none

-- the candidates of the greatest length
abbrev pub the_longest : List Candidate → List Candidate
the_longest cs = gather (if_size (longest cs)) cs

longest-Perm : {xs ys : List Candidate} → Permᴰ xs ys → longest xs ≡ longest ys
unfolding longest
longest-Perm Permᴰ.nil = refl
longest-Perm (Permᴰ.cons e p) = ap₂ (λ c n. max c.size n) e (longest-Perm p)
longest-Perm (Permᴰ.swap {a} {b} {a'} {b'} {l} e e') =
    let e1 : a.size ≡ b'.size = ap (λ c. c.size) e in
    let e2 : b.size ≡ a'.size = ap (λ c. c.size) e' in omega arith
longest-Perm (Permᴰ.trans p q) = longest-Perm p ∙ longest-Perm q

the_longest-Perm : {xs ys : List Candidate} → Permᴰ xs ys → Permᴰ (the_longest xs) (the_longest ys)
the_longest-Perm {xs} {ys} p =
    subst (λ n. Permᴰ (the_longest xs) (gather (if_size n) ys)) (longest-Perm p)
      (gather-Perm (if_size (longest xs)) p)

-- what the loop has after the candidates `cs`
abbrev top : List Candidate → ℤ
top [] = negsuc 0
top (c ∷ cs) = pos (longest (c ∷ cs))

abbrev best_of : List Candidate → Best
best_of cs = record { matches = the_longest cs; size = top cs }

longest-append :
    (cs : List Candidate) (c : Candidate) → longest (cs ++ (c ∷ [])) ≡ max (longest cs) c.size
unfolding longest
longest-append [] c = omega arith
longest-append (d ∷ cs) c = omega (arith, longest-append cs c)

gather-append :
    (n : ℕ) (cs : List Candidate) (c : Candidate)
    → gather (if_size n) (cs ++ (c ∷ []))
      ≡ gather (if_size n) cs ++ (if c.size == n then c ∷ [] else [])
unfolding gather
gather-append n [] c = ground arith
gather-append n (d ∷ cs) c = elim (Bool-cases (d.size == n)) [
  | inl e ↦ rw e (ap (λ l. d ∷ l) (gather-append n cs c))
  | inr e ↦ rw e (gather-append n cs c)
]

gather-longer : (n : ℕ) (cs : List Candidate) → suc (longest cs) ≤ n → gather (if_size n) cs ≡ []
unfolding gather longest
gather-longer n [] h = refl
gather-longer n (c ∷ cs) h = let rest = gather-longer n cs (omega arith) in ground arith

abbrev made : List Candidate → ℕ → Best
made cs n = record { matches = cs; size = pos n }

longest-nil : (n : ℕ) → max (longest []) n ≡ n
unfolding longest
longest-nil n = omega arith

-- the best of one candidate more, from the greatest length and the candidates of it
best_of-append :
    (xs : List Candidate) (c : Candidate) (n : ℕ) (old last : List Candidate)
    → max (longest xs) c.size ≡ n
    → gather (if_size n) xs ≡ old
    → (if c.size == n then c ∷ [] else []) ≡ last
    → made (old ++ last) n ≡ made (the_longest (xs ++ (c ∷ []))) (longest (xs ++ (c ∷ [])))
best_of-append xs c n old last greatest olds lasts =
    let e = longest-append xs c ∙ greatest in
    ap₂ made
      (ap₂ (λ a b. a ++ b) (sym olds) (sym lasts)
        ∙ sym (gather-append n xs c)
        ∙ ap (λ k. gather (if_size k) (xs ++ (c ∷ []))) (sym e))
      (sym e)

gather-nil : (n : ℕ) → gather (if_size n) [] ≡ []
unfolding gather
gather-nil n = refl

first : (c : Candidate) → ltb_ℤ (negsuc 0) (pos c.size) ≡ true
first c = ground arith

add-best : (c : Candidate) (cs : List Candidate) → add c (best_of cs) ≡ best_of (cs ++ (c ∷ []))
unfolding add
add-best c [] =
    rw (first c) (
      best_of-append [] c c.size [] (c ∷ []) (longest-nil c.size) (gather-nil c.size)
        (ground arith))
add-best c (d ∷ cs) = elim (Bool-cases (ltb_ℤ (pos (longest (d ∷ cs))) (pos c.size))) [
  | inl longer ↦ rw longer (
      best_of-append (d ∷ cs) c c.size [] (c ∷ []) (ground arith)
        (gather-longer c.size (d ∷ cs) (ground arith)) (ground arith))
  | inr no_longer ↦ rw no_longer (elim (Bool-cases (eq_ℤ (pos c.size) (pos (longest (d ∷ cs))))) [
    | inl equal ↦ rw equal (
        best_of-append (d ∷ cs) c (longest (d ∷ cs)) (the_longest (d ∷ cs)) (c ∷ []) (ground arith)
          refl (ground arith))
    | inr shorter ↦ rw shorter (
        ap (λ m. made m (longest (d ∷ cs))) (sym (append-nil (the_longest (d ∷ cs))))
        ∙ best_of-append (d ∷ cs) c (longest (d ∷ cs)) (the_longest (d ∷ cs)) [] (ground arith) refl
            (ground arith))
  ])
]

scan-best :
    (s : Snapshot) (want : Option ProtoType) (ln : String) (es : List (String × String))
    (cs : List Candidate)
    → scan s want ln es (best_of cs) ≡ best_of (cs ++ gather (tested s want ln) es)
unfolding scan gather
scan-best s want ln [] cs = ap best_of (sym (append-nil cs))
scan-best s want ln (e ∷ es) cs = elim (Bool-cases (qualifies s want ln e)) [
  | inl in_play ↦ rw in_play (
      ap (scan s want ln es) (add-best (candidate s e) cs)
      ∙ scan-best s want ln es (cs ++ (candidate s e ∷ []))
      ∙ ap best_of (append_assoc cs (candidate s e ∷ []) (gather (tested s want ln) es)))
  | inr out ↦ rw out (scan-best s want ln es cs)
]

scan-none :
    (s : Snapshot) (want : Option ProtoType) (ln : String) (es : List (String × String))
    → scan s want ln es no_match ≡ best_of (gather (tested s want ln) es)
scan-none s want ln es =
    ap (λ m. scan s want ln es (record { matches = m; size = negsuc 0 }))
      (sym (gather-nil (longest [])))
    ∙ scan-best s want ln es []

-- what the list of matches comes to
abbrev by_view : Snapshot → String → Option ProtoType → Bool → View Candidate → Resolution
by_view s name want ambig empty = if ambig then ambiguous else pass s name (wanted want)
by_view s name want ambig (one c) =
    if not c.dup && not ambig then found c.name (s.model_type c.name) else ambiguous
by_view s name want ambig many = ambiguous

settle-view :
    (s : Snapshot) (name : String) (want : Option ProtoType) (ambig : Bool) (cs : List Candidate)
    → settle s name want cs ambig ≡ by_view s name want ambig (view cs)
unfolding settle
settle-view s name want ambig [] = refl
settle-view s name want ambig (c ∷ []) = refl
settle-view s name want ambig (c ∷ d ∷ cs) =
    ap (by_view s name want ambig) (sym (cover_twice c d (view cs)))

settle-Perm :
    (s : Snapshot) (name : String) (want : Option ProtoType) (ambig : Bool) {xs ys : List Candidate}
    → Permᴰ xs ys
    → settle s name want xs ambig ≡ settle s name want ys ambig
settle-Perm s name want ambig {xs} {ys} p =
    settle-view s name want ambig xs
    ∙ ap (by_view s name want ambig) (view-Perm p)
    ∙ sym (settle-view s name want ambig ys)

-- Whatever the order in which the map is walked, the version match comes to the qualifying
-- candidates of the greatest length: one that has no case variants is the answer, several are
-- ambiguous, and with none the accounts that take any name come next.
pub scan-order :
    (s : Snapshot) (name : String) (want : Option ProtoType) (ln : String) (ambig : Bool)
    (es walked : List (String × String))
    → Permᴰ walked es
    → settle s name want (scan s want ln walked no_match).matches ambig
      ≡ settle s name want (the_longest (gather (tested s want ln) es)) ambig
scan-order s name want ln ambig es walked p =
    ap (λ b. settle s name want b.matches ambig) (scan-none s want ln walked)
    ∙ settle-Perm s name want ambig (the_longest-Perm (gather-Perm (tested s want ln) p))
