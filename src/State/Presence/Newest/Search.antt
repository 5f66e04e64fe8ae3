-- ===== src/State/Presence/Newest/Search.antt =====
-- A search for the newest: what it finds.
use bencoscar.Prelude.{
  ℕ, ◌≤◌, ◌≡◌, refl, sym, ◌∙◌, subst, List, [], ◌∷◌, Bool, true, false, not, ◌||◌, ◌⊎◌, inl, inr,
  ltb, if◌then◌else◌, All, arith, Bool-cases,
}

-- The search for the newest, where `ok` says what counts and `key` is its time.
module _ {A : Type 0} (ok : A → Bool) (key : A → ℕ) where
  abbrev pub newer : A → A → A
  newer latest a =
      if not (ok a)
      then latest
      else if not (ok latest) || ltb (key latest) (key a)
      then a
      else latest

  abbrev pub newest : List A → A → A
  newest [] latest = latest
  newest (a ∷ xs) latest = newest xs (newer latest a)

  -- One of them that counts, or what the search began with.
  abbrev pub IsFrom : A → List A → A → Type 0
  IsFrom start [] r = r ≡ start
  IsFrom start (a ∷ xs) r = ((ok a ≡ true) × (r ≡ a)) ⊎ IsFrom start xs r

  -- What does not count, or is not newer.
  abbrev pub IsBelow : A → A → Type 0
  IsBelow r a = (ok a ≡ false) ⊎ ((ok r ≡ true) × (key a ≤ key r))

  IsBelow-trans : (a b r : A) → IsBelow b a → IsBelow r b → IsBelow r a
  IsBelow-trans a b r (inl f) h = inl f
  IsBelow-trans a b r (inr (t, l)) (inl f) = absurd (ground (arith, t, f))
  IsBelow-trans a b r (inr (t, l)) (inr (t', l')) = inr (t', omega (arith, l, l'))

  IsBelow-refl : (a : A) → IsBelow a a
  IsBelow-refl a = elim (Bool-cases (ok a)) [ inl t ↦ inr (t, omega arith) | inr f ↦ inl f ]

  abbrev IsNewer : A → A → A → Type 0
  IsNewer latest a r = IsBelow r latest × IsBelow r a × (((ok a ≡ true) × (r ≡ a)) ⊎ (r ≡ latest))

  newer-IsNewer : (latest a : A) → IsNewer latest a (newer latest a)
  newer-IsNewer latest a = elim (Bool-cases (ok a)) [
    | inr f ↦ is latest (rw f refl) (IsBelow-refl latest, inl f, inr refl)
    | inl t ↦ elim (Bool-cases (ok latest)) [
      | inr g ↦ is a (rw (t, g) refl) (inl g, IsBelow-refl a, inl (t, refl))
      | inl g ↦ elim (Bool-cases (ltb (key latest) (key a))) [
        | inl l ↦
            is a (rw (t, g, l) refl) (inr (t, ground (arith, l)), IsBelow-refl a, inl (t, refl))
        | inr l ↦
            is latest (rw (t, g, l) refl)
              (IsBelow-refl latest, inr (g, ground (arith, l)), inr refl)
      ]
    ]
  ]
    where
      is : (r : A) → newer latest a ≡ r → IsNewer latest a r → IsNewer latest a (newer latest a)
      is r e h = subst (IsNewer latest a) (sym e) h

  -- It is one of them that counts, or what the search began with, and none that counts is newer.
  abbrev pub IsNewest : A → List A → A → Type 0
  IsNewest start xs r = IsFrom start xs r × All (IsBelow r) xs

  newest-newest :
      (xs : List A) (latest : A)
      → IsBelow (newest xs latest) latest
        × All (IsBelow (newest xs latest)) xs
        × IsFrom latest xs (newest xs latest)
  newest-newest [] latest = (IsBelow-refl latest, tt, refl)
  newest-newest (a ∷ xs) latest =
      let (b, c, d) = newer-IsNewer latest a in
      let (h, hs, f) = newest-newest xs (newer latest a) in
      (
        IsBelow-trans latest (newer latest a) (newest xs (newer latest a)) b h,
        (IsBelow-trans a (newer latest a) (newest xs (newer latest a)) c h, hs),
        from xs (newest xs (newer latest a)) d f,
      )
    where
      from :
          (ys : List A) (r : A)
          → ((ok a ≡ true) × (newer latest a ≡ a)) ⊎ (newer latest a ≡ latest)
          → IsFrom (newer latest a) ys r
          → ((ok a ≡ true) × (r ≡ a)) ⊎ IsFrom latest ys r
      from [] r (inl (t, e)) f = inl (t, f ∙ e)
      from [] r (inr e) f = inr (f ∙ e)
      from (y ∷ ys) r d (inl e) = inr (inl e)
      from (y ∷ ys) r d (inr f) = elim (from ys r d f) [ inl e ↦ inl e | inr g ↦ inr (inr g) ]

  pub newest-IsNewest : (xs : List A) (start : A) → IsNewest start xs (newest xs start)
  newest-IsNewest xs start = let (h, hs, f) = newest-newest xs start in (f, hs)
