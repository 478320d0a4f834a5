-- ===== src/Prices/Filed.antt =====
-- `Reload` of internal/pricing/pricing.go: the rows of a key of the map.
use Prim.Native.String.{String}
use text.Mathlib.Text.{◌==◌}
use text.Mathlib.TextEquality.{eq_iff}
use mathlib.Core.Bool.{true≢false}
use yzapi.Base.{◌≡◌, sym, ap, ◌∙◌, ◌⊎◌, inl, inr, ◌↔◌, List, [], ◌∷◌, ◌++◌, Bool-cases, subst}
use yzapi.Base.Texts.{put}
use mathlib.Core.List.{Memᴰ}
use mathlib.Core.List.Memᴰ.{
  head, tail, not-nil, append_left, append_right, append_cases, eq_of_singleton, cases_cons,
}
use yzapi.Prices.{ModelPrice, Go, file_rows, reload}

put-mem :
    (m : String → List ModelPrice) (k j : String) (r x : ModelPrice)
    → Memᴰ x (put m k (m k ++ (r ∷ [])) j) ↔ (Memᴰ x (m j) ⊎ ((x ≡ r) × (k ≡ j)))
put-mem m k j r x = elim (Bool-cases (k == j)) [
  | inl e ↦ rw e (
    λ h. elim (append_cases (m k) h) [
      | inl old ↦ inl (subst (λ t. Memᴰ x (m t)) ((eq_iff k j).0 e) old)
      | inr new ↦ inr (eq_of_singleton new, (eq_iff k j).0 e)
    ],
    λ h. elim h [
      | inl old ↦ append_left (r ∷ []) (subst (λ t. Memᴰ x (m t)) (sym ((eq_iff k j).0 e)) old)
      | inr (same, _) ↦ append_right (m k) (head same)
    ],
  )
  | inr e ↦ rw e (
    λ h. inl h,
    λ h. elim h [
      | inl old ↦ old
      | inr (_, same) ↦ absurd (true≢false (sym ((eq_iff k j).1 same) ∙ e))
    ],
  )
]

module _ (go : Go) where
  file_rows-mem :
      (rows : List ModelPrice) (m : String → List ModelPrice) (j : String) (x : ModelPrice)
      → Memᴰ x (file_rows go rows m j)
        ↔ (Memᴰ x (m j) ⊎ (Memᴰ x rows × (go.lower_name x.provider ≡ j)))
  unfolding file_rows
  file_rows-mem [] m j x =
      (inl, λ h. elim h [ inl old ↦ old | inr (none_left, _) ↦ absurd (not-nil none_left) ])
  file_rows-mem (r ∷ rows) m j x =
      let k = go.lower_name r.provider in
      let one = put-mem m k j r x in
      let rest = file_rows-mem rows (put m k (m k ++ (r ∷ []))) j x in
      (
        λ h. elim (rest.0 h) [
          | inl first ↦ elim (one.0 first) [
            | inl old ↦ inl old
            | inr (same, f) ↦ inr (head same, ap (λ y. go.lower_name y.provider) same ∙ f)
          ]
          | inr (deep, f) ↦ inr (tail deep, f)
        ],
        λ h. rest.1 (elim h [
          | inl old ↦ inl (one.1 (inl old))
          | inr (here, f) ↦ elim (cases_cons here) [
            | inl same ↦ inl (one.1 (inr (same, ap (λ y. go.lower_name y.provider) (sym same) ∙ f)))
            | inr deep ↦ inr (deep, f)
          ]
        ]),
      )

  pub reload-mem :
      (rows : List ModelPrice) (j : String) (x : ModelPrice)
      → Memᴰ x (reload go rows j) ↔ (Memᴰ x rows × (go.lower_name x.provider ≡ j))
  reload-mem rows j x =
      let f = file_rows-mem rows (λ k. []) j x in
      (
        λ h. elim (f.0 h) [ inl none_yet ↦ absurd (not-nil none_yet) | inr found ↦ found ],
        λ h. f.1 (inr h),
      )
