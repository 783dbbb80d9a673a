-- ===== src/Base/Sorting.antt =====
-- `std::ranges::sort` by a text, with what the result is: in order, and with the same elements.
use Prim.Native.Nat.{ℕ}
use mathlib.Core.Path.{◌≡◌, refl}
use mathlib.Core.Logic.{◌↔◌, inl, inr}
use mathlib.Core.Bool.{Bool, true, false}
use mathlib.Core.List.{List, [], ◌∷◌}
use native.Mathlib.Omega.{arith}
use meta_monutchee.Base.Tests.{ltb, if◌then◌else◌, Bool-cases}
use meta_monutchee.Base.Lists.{All}

-- the order of the bytes of two texts, which is that of their code points
unfoldable pub codes_leb : List ℕ → List ℕ → Bool
codes_leb [] ys = true
codes_leb (x ∷ xs) [] = false
codes_leb (x ∷ xs) (y ∷ ys) =
    let rest = codes_leb xs ys in if ltb x y then true else if ltb y x then false else rest

pub codes_leb-total : (xs ys : List ℕ) → codes_leb xs ys ≡ false → codes_leb ys xs ≡ true
unfolding codes_leb
codes_leb-total [] ys h = ground arith
codes_leb-total (x ∷ xs) [] h = refl
codes_leb-total (x ∷ xs) (y ∷ ys) h = ground (arith, codes_leb-total xs ys)

pub codes_leb_trans :
    (xs ys zs : List ℕ) → codes_leb xs ys ≡ true → codes_leb ys zs ≡ true → codes_leb xs zs ≡ true
unfolding codes_leb
codes_leb_trans [] ys zs h k = refl
codes_leb_trans (x ∷ xs) [] zs h k = ground arith
codes_leb_trans (x ∷ xs) (y ∷ ys) [] h k = ground arith
codes_leb_trans (x ∷ xs) (y ∷ ys) (z ∷ zs) h k = ground (arith, codes_leb_trans xs ys zs)

pub codes_leb_antisym : (xs ys : List ℕ) → codes_leb xs ys ≡ true → codes_leb ys xs ≡ true → xs ≡ ys
unfolding codes_leb
codes_leb_antisym [] [] h k = refl
codes_leb_antisym [] (y ∷ ys) h k = absurd (cc)
codes_leb_antisym (x ∷ xs) [] h k = absurd (cc)
codes_leb_antisym (x ∷ xs) (y ∷ ys) h k = ground (arith, codes_leb_antisym xs ys)

module _ {A : Type 0} (key : A → List ℕ) where
  abbrev pub is_before : A → A → Bool
  is_before a b = codes_leb (key a) (key b)

  unfoldable pub insert : A → List A → List A
  insert a [] = a ∷ []
  insert a (b ∷ rest) =
      let inserted = insert a rest in if is_before a b then a ∷ b ∷ rest else b ∷ inserted

  unfoldable pub sort_by : List A → List A
  unfolding insert
  sort_by [] = []
  sort_by (a ∷ rest) = insert a (sort_by rest)

  abbrev pub IsSorted : List A → Type 0
  IsSorted [] = Unit
  IsSorted (a ∷ rest) = All (λ b. is_before a b ≡ true) rest × IsSorted rest

  insert-All : (P : A → Type 0) (a : A) (xs : List A) → All P (insert a xs) ↔ (P a × All P xs)
  unfolding insert
  insert-All P a [] = ((λ h. h), λ h. h)
  insert-All P a (b ∷ rest) = elim (Bool-cases (is_before a b)) [
    | inl before ↦ rw before ((λ h. h), λ h. h)
    | inr behind ↦
        let inner = insert-All P a rest in
        rw behind (
          (λ h. let (pa, prest) = inner.0 h.1 in (pa, (h.0, prest))),
          λ h. (h.1.0, inner.1 (h.0, h.1.1)),
        )
  ]

  -- sorting keeps the elements
  pub sort_by-All : (P : A → Type 0) (xs : List A) → All P (sort_by xs) ↔ All P xs
  unfolding sort_by
  sort_by-All P [] = ((λ h. h), λ h. h)
  sort_by-All P (a ∷ rest) =
      let inner = sort_by-All P rest in
      let outer = insert-All P a (sort_by rest) in
      ((λ h. let (pa, prest) = outer.0 h in (pa, inner.0 prest)), λ h. outer.1 (h.0, inner.1 h.1))

  All-before :
      (a b : A) (xs : List A)
      → is_before a b ≡ true
      → All (λ c. is_before b c ≡ true) xs
      → All (λ c. is_before a c ≡ true) xs
  All-before a b [] h k = tt
  All-before a b (c ∷ xs) h k =
      (codes_leb_trans (key a) (key b) (key c) h k.0, All-before a b xs h k.1)

  insert-IsSorted : (a : A) (xs : List A) → IsSorted xs → IsSorted (insert a xs)
  unfolding insert
  insert-IsSorted a [] h = (tt, tt)
  insert-IsSorted a (b ∷ rest) h = elim (Bool-cases (is_before a b)) [
    | inl before ↦ rw before ((before, All-before a b rest before h.0), h)
    | inr behind ↦ rw behind (
      (insert-All (λ c. is_before b c ≡ true) a rest).1
          (codes_leb-total (key a) (key b) behind, h.0),
      insert-IsSorted a rest h.1,
    )
  ]

  pub sort_by-IsSorted : (xs : List A) → IsSorted (sort_by xs)
  unfolding sort_by
  sort_by-IsSorted [] = tt
  sort_by-IsSorted (a ∷ rest) = insert-IsSorted a (sort_by rest) (sort_by-IsSorted rest)
