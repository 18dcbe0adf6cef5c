-- ===== src/Common/Sort.antt =====
-- `sort` with a comparison.
use atproto_market.Common.{
  String, ◌+◌, Bool, false, ◌≡◌, refl, ap, ◌∙◌, arith, List, [], ◌∷◌, if◌then◌else◌, ◌==◌, ◌||◌,
  eq_iff, includes, All, Bool-cases, inl, inr, map, length,
}
use atproto_market.Common.Distinct.{Distinct}

-- A stable sort: an element goes behind those that are not greater.
unfoldable pub insert_by {ℓ} : {A : Type ℓ} → (A → A → Bool) → A → List A → List A
insert_by less x [] = x ∷ []
insert_by less x (y ∷ ys) = if less x y then x ∷ y ∷ ys else y ∷ insert_by less x ys

unfoldable pub sort_by {ℓ} : {A : Type ℓ} → (A → A → Bool) → List A → List A → List A
unfolding insert_by
sort_by less done [] = done
sort_by less done (x ∷ xs) = sort_by less (insert_by less x done) xs

module _ {ℓ κ} {A : Type ℓ} (P : A → Type κ) (less : A → A → Bool) where
  insert_by-All : (x : A) (xs : List A) → P x → All P xs → All P (insert_by less x xs)
  unfolding insert_by
  insert_by-All x [] p h = (p, tt)
  insert_by-All x (y ∷ ys) p h = elim (Bool-cases (less x y)) [
    | inl first ↦ rw first (p, h)
    | inr later ↦ rw later (h.0, insert_by-All x ys p h.1)
  ]

  pub sort_by-All : (done xs : List A) → All P done → All P xs → All P (sort_by less done xs)
  unfolding sort_by
  sort_by-All done [] d h = d
  sort_by-All done (x ∷ xs) d h =
      sort_by-All (insert_by less x done) xs (insert_by-All x done h.0 d) h.1

  insert_by-All_back : (x : A) (xs : List A) → All P (insert_by less x xs) → P x × All P xs
  unfolding insert_by
  insert_by-All_back x [] h = h
  insert_by-All_back x (y ∷ ys) h = elim (Bool-cases (less x y)) [
    | inl first ↦ rw first at h
    | inr later ↦
        let split : P y × All P (insert_by less x ys) = rw later at h in
        let (p, rest) = insert_by-All_back x ys split.1 in (p, (split.0, rest))
  ]

  -- What holds of all members of a sorted list holds of all that was sorted.
  pub sort_by-All_back : (done xs : List A) → All P (sort_by less done xs) → All P done × All P xs
  unfolding sort_by
  sort_by-All_back done [] h = (h, tt)
  sort_by-All_back done (x ∷ xs) h =
      let (sorted, rest) = sort_by-All_back (insert_by less x done) xs h in
      let (p, others) = insert_by-All_back x done sorted in (others, (p, rest))

module _ {ℓ} {A : Type ℓ} (f : A → String) (less : A → A → Bool) where
  includes-insert_by :
      (u : String) (x : A) (xs : List A)
      → includes u (map f (insert_by less x xs)) ≡ (f x == u || includes u (map f xs))
  unfolding insert_by includes
  includes-insert_by u x [] = refl
  includes-insert_by u x (y ∷ ys) = ground (arith, includes-insert_by u x ys)

  pub includes-sort_by :
      (u : String) (done xs : List A)
      → includes u (map f (sort_by less done xs))
        ≡ (includes u (map f xs) || includes u (map f done))
  unfolding sort_by includes
  includes-sort_by u done [] = refl
  includes-sort_by u done (x ∷ xs) =
      ground (arith, includes-sort_by u (insert_by less x done) xs, includes-insert_by u x done)

  insert_by-Distinct :
      (x : A) (xs : List A)
      → Distinct (map f xs)
      → includes (f x) (map f xs) ≡ false
      → Distinct (map f (insert_by less x xs))
  unfolding insert_by includes
  insert_by-Distinct x [] h n = (refl, tt)
  insert_by-Distinct x (y ∷ ys) h n = elim (Bool-cases (less x y)) [
    | inl first ↦ rw first (n, h)
    | inr later ↦
        let rest = insert_by-Distinct x ys h.1 (ground (arith, n)) in
        let out = h.0 in
        rw (later, includes-insert_by (f y) x ys)
          (ground (arith, n, out, eq_iff (f x) (f y), eq_iff (f y) (f x)), rest)
  ]

  -- No name is one of those before it, or of those given.
  abbrev pub AreNew : List String → List A → Type 0
  AreNew seen [] = Unit {0}
  AreNew seen (x ∷ xs) = (includes (f x) seen ≡ false) × AreNew (f x ∷ seen) xs

  pub sort_by-Distinct :
      (done : List A) (seen : List String) (xs : List A)
      → ((u : String) → includes u (map f done) ≡ includes u seen)
      → Distinct (map f done)
      → AreNew seen xs
      → Distinct (map f (sort_by less done xs))
  unfolding sort_by includes
  sort_by-Distinct done seen [] same d h = d
  sort_by-Distinct done seen (x ∷ xs) same d h =
      sort_by-Distinct (insert_by less x done) (f x ∷ seen) xs
        (λ u. includes-insert_by u x done ∙ ap (λ b. f x == u || b) (same u))
        (insert_by-Distinct x done d (same (f x) ∙ h.0)) h.1

  length-insert_by : (x : A) (xs : List A) → length (insert_by less x xs) ≡ length (x ∷ xs)
  unfolding insert_by
  length-insert_by x [] = refl
  length-insert_by x (y ∷ ys) = ground (arith, length-insert_by x ys)

  pub length-sort_by : (done xs : List A) → length (sort_by less done xs) ≡ length done + length xs
  unfolding sort_by
  length-sort_by done [] = omega arith
  length-sort_by done (x ∷ xs) =
      omega (arith, length-sort_by (insert_by less x done) xs, length-insert_by x done)
