-- ===== src/Prices/Found.antt =====
-- `Lookup` of internal/pricing/pricing.go: the row that it answers.
use Prim.Native.String.{String}
use yzapi.Base.{
  ◌≤◌, ◌≡◌, refl, ap, ◌∙◌, ◌⊎◌, inl, inr, true, false, Option, none, some, List, [], ◌∷◌, ltb,
  length, Bool-cases, arith,
}
use yzapi.Base.Pick.{All}
use mathlib.Core.List.{Memᴰ}
use mathlib.Core.List.Memᴰ.{head, tail}
use yzapi.Health.Truncate.{Bytes}
use yzapi.Prices.{ModelPrice, Go, name_of, pattern_of, fits_row, best_of, rows_for, or_next, lookup}

module _ (go : Go) where
  -- a row that fits is no longer than another
  abbrev pub NoLonger : Bytes → ModelPrice → ModelPrice → Type 0
  NoLonger name best r =
      (fits_row go name r ≡ false) ⊎ (length (pattern_of go r) ≤ length (pattern_of go best))

  abbrev pub Longest : Bytes → List ModelPrice → ModelPrice → Type 0
  Longest name rows r = Memᴰ r rows × (fits_row go name r ≡ true) × All (NoLonger name r) rows

  abbrev pub NoFit : Bytes → List ModelPrice → Type 0
  NoFit name rows = All (λ r. fits_row go name r ≡ false) rows

  -- what the loop holds of the rows so far, from `best`
  abbrev Outcome : Bytes → List ModelPrice → Option ModelPrice → Option ModelPrice → Type 0
  Outcome name rows none r =
      ((r ≡ none) × NoFit name rows) ⊎ ((b : ModelPrice) × (r ≡ some b) × Longest name rows b)
  Outcome name rows (some a) r =
      (b : ModelPrice) × (r ≡ some b)
      × ((b ≡ a) ⊎ (Memᴰ b rows × (fits_row go name b ≡ true)))
      × (length (pattern_of go a) ≤ length (pattern_of go b))
      × All (NoLonger name b) rows

  -- the row that the loop holds after `r`, from none
  from_none :
      (name : Bytes) (rows : List ModelPrice) (r : ModelPrice) (o : Option ModelPrice)
      → fits_row go name r ≡ true
      → Outcome name rows (some r) o
      → Outcome name (r ∷ rows) none o
  from_none name rows r o e (b, f, inl same, le, all) =
      inr (b, f, (head same, ap (fits_row go name) same ∙ e, (inr le, all)))
  from_none name rows r o e (b, f, inr (m, fit), le, all) = inr (b, f, (tail m, fit, (inr le, all)))

  not_fit :
      (name : Bytes) (rows : List ModelPrice) (r : ModelPrice) (o : Option ModelPrice)
      → fits_row go name r ≡ false
      → Outcome name rows none o
      → Outcome name (r ∷ rows) none o
  not_fit name rows r o e (inl (f, none_fit)) = inl (f, (e, none_fit))
  not_fit name rows r o e (inr (b, f, (m, fit, all))) = inr (b, f, (tail m, fit, (inl e, all)))

  replaced :
      (name : Bytes) (rows : List ModelPrice) (r a : ModelPrice) (o : Option ModelPrice)
      → fits_row go name r ≡ true
      → length (pattern_of go a) ≤ length (pattern_of go r)
      → Outcome name rows (some r) o
      → Outcome name (r ∷ rows) (some a) o
  replaced name rows r a o e more (b, f, inl same, le, all) = (
    b,
    f,
    inr (head same, ap (fits_row go name) same ∙ e),
    omega (arith, more, le),
    (inr le, all),
  )
  replaced name rows r a o e more (b, f, inr (m, fit), le, all) =
      (b, f, inr (tail m, fit), omega (arith, more, le), (inr le, all))

  stayed :
      (name : Bytes) (rows : List ModelPrice) (r a : ModelPrice) (o : Option ModelPrice)
      → NoLonger name a r
      → Outcome name rows (some a) o
      → Outcome name (r ∷ rows) (some a) o
  stayed name rows r a o no_longer (b, f, from, le, all) = (
    b,
    f,
    elim from [ inl same ↦ inl same | inr (m, fit) ↦ inr (tail m, fit) ],
    le,
    (elim no_longer [ inl no_fit ↦ inl no_fit | inr short ↦ inr (omega (arith, short, le)) ], all),
  )

  best_of-Outcome :
      (name : Bytes) (rows : List ModelPrice) (best : Option ModelPrice)
      → Outcome name rows best (best_of go name rows best)
  unfolding best_of
  best_of-Outcome name [] none = inl (refl, tt)
  best_of-Outcome name [] (some a) = (a, refl, inl refl, omega arith, tt)
  best_of-Outcome name (r ∷ rows) none = elim (Bool-cases (fits_row go name r)) [
    | inl e ↦
        from_none name rows r (best_of go name (r ∷ rows) none) e
          (rw e (best_of-Outcome name rows (some r)))
    | inr e ↦
        not_fit name rows r (best_of go name (r ∷ rows) none) e
          (rw e (best_of-Outcome name rows none))
  ]
  best_of-Outcome name (r ∷ rows) (some a) = elim (Bool-cases (fits_row go name r)) [
    | inr e ↦
        stayed name rows r a (best_of go name (r ∷ rows) (some a)) (inl e)
          (rw e (best_of-Outcome name rows (some a)))
    | inl e ↦ elim (Bool-cases (ltb (length (pattern_of go a)) (length (pattern_of go r)))) [
      | inl f ↦
          replaced name rows r a (best_of go name (r ∷ rows) (some a)) e (ground arith)
            (rw e (rw f (best_of-Outcome name rows (some r))))
      | inr f ↦
          stayed name rows r a (best_of go name (r ∷ rows) (some a)) (inr (ground arith))
            (rw e (rw f (best_of-Outcome name rows (some a))))
    ]
  ]

  -- three kinds of rows, one after the other
  abbrev pub Answered :
      Bytes → List ModelPrice → List ModelPrice → List ModelPrice → Option ModelPrice → Type 0
  Answered name own bare any o =
      ((r : ModelPrice) × (o ≡ some r)
        × (Longest name own r
            ⊎ (NoFit name own × Longest name bare r)
            ⊎ (NoFit name own × NoFit name bare × Longest name any r)))
      ⊎ ((o ≡ none) × NoFit name own × NoFit name bare × NoFit name any)

  in_turn :
      (name : Bytes) (own bare any : List ModelPrice) (a b c : Option ModelPrice)
      → Outcome name own none a
      → Outcome name bare none b
      → Outcome name any none c
      → Answered name own bare any (or_next a (or_next b c))
  in_turn name own bare any a b c (inr (r, e, best)) y z = inl (r, rw (e) refl, inl best)
  in_turn name own bare any a b c (inl (e, n)) (inr (r, f, best)) z =
      inl (r, rw e (rw f refl), inr (inl (n, best)))
  in_turn name own bare any a b c (inl (e, n)) (inl (f, k)) (inr (r, g, best)) =
      inl (r, rw e (rw f g), inr (inr (n, k, best)))
  in_turn name own bare any a b c (inl (e, n)) (inl (f, k)) (inl (g, h)) =
      inr (rw e (rw f g), n, k, h)

  -- The row that `Lookup` answers fits the name of the model and has a longest pattern among those that do,
  -- in the rows of the provider; if none of them fits, in the rows without a provider; if none of those
  -- fits, in all rows. It answers none exactly if no row of the three kinds fits. The map of the rows and
  -- the order of its walk may be any.
  pub lookup_lem :
      (by : String → List ModelPrice) (keys : List String) (provider : String) (model : Bytes)
      → Answered
          (name_of go model)
          (rows_for by keys (go.lower_name provider))
          (rows_for by keys "")
          (rows_for by keys "*")
          (lookup go by keys provider model)
  unfolding lookup
  lookup_lem by keys provider model =
      let name = name_of go model in
      in_turn name (rows_for by keys (go.lower_name provider)) (rows_for by keys "")
        (rows_for by keys "*") (best_of go name (rows_for by keys (go.lower_name provider)) none)
        (best_of go name (rows_for by keys "") none) (best_of go name (rows_for by keys "*") none)
        (best_of-Outcome name (rows_for by keys (go.lower_name provider)) none)
        (best_of-Outcome name (rows_for by keys "") none)
        (best_of-Outcome name (rows_for by keys "*") none)
