-- ===== src/KeyCache/Entries.antt =====
-- Predicates that the entries of the cache of internal/gateway/principal.go keep.
use yzapi.Base.{
  ℕ, ◌≡◌, subst, inl, inr, some, List, [], ◌∷◌, ltb, leb, ◌==◌, length, Bool-cases, arith,
}
use yzapi.Base.Pick.{All}
use yzapi.KeyCache.{Entry, cache_max, find, sweep, remove, make_room, store}

module _ (P : Entry → Type 0) where
  sweep-All : (now : ℕ) (m : List Entry) → All P m → All P (sweep now m)
  unfolding sweep
  sweep-All now [] all = tt
  sweep-All now (e ∷ m) all = elim (Bool-cases (ltb e.expires now)) [
    | inl gone ↦ rw gone (sweep-All now m all.1)
    | inr stays ↦ rw stays (all.0, sweep-All now m all.1)
  ]

  remove-All : (h : ℕ) (m : List Entry) → All P m → All P (remove h m)
  unfolding remove
  remove-All h [] all = tt
  remove-All h (e ∷ m) all = elim (Bool-cases (e.hash == h)) [
    | inl gone ↦ rw gone (remove-All h m all.1)
    | inr stays ↦ rw stays (all.0, remove-All h m all.1)
  ]

  make_room-All : (now : ℕ) (m : List Entry) → All P m → All P (make_room now m)
  unfolding make_room
  make_room-All now m all = elim (Bool-cases (leb cache_max (length m))) [
    | inr room ↦ rw room all
    | inl full ↦ rw full (elim (Bool-cases (leb cache_max (length (sweep now m)))) [
      | inl still ↦ rw still tt
      | inr kept ↦ rw kept (sweep-All now m all)
    ])
  ]

  pub store-All : (now : ℕ) (e : Entry) (m : List Entry) → P e → All P m → All P (store now e m)
  unfolding store
  store-All now e m p all = (p, remove-All e.hash (make_room now m) (make_room-All now m all))

  pub find-All :
      (h : ℕ) (m : List Entry) (e : Entry) → find h m ≡ some e → All P m → P e × (e.hash ≡ h)
  unfolding find
  find-All h [] e found all = absurd (ground arith)
  find-All h (x ∷ m) e found all = elim (Bool-cases (x.hash == h)) [
    | inl here ↦
        let same : x ≡ e = ground arith in
        (subst P same all.0, subst (λ y. y.hash ≡ h) same (ground arith))
    | inr later ↦ find-All h m e (ground arith) all.1
  ]
