-- ===== src/Common/Sorting.antt =====
-- Insertion sort by a Boolean order. On equal keys the order of the input is kept.
use Prim.Native.Nat.{suc}
use mathlib.Core.Path.{◌≡◌, refl, ◌∙◌, ap}
use mathlib.Core.Bool.{Bool, true, false}
use mathlib.Core.List.{List, [], ◌∷◌, Perm, Permᴰ}
use mathlib.Core.List.Permᴰ
use mathlib.Core.Logic.{inl, inr}
use native.Mathlib.Omega.{arith}
use nats_operator_experiment.Common.Tests.{if◌then◌else◌, Bool-cases}
use nats_operator_experiment.Common.Lists.{All, length}

module _ {ℓ} {A : Type ℓ} (le : A → A → Bool) where
  unfoldable pub insert_by : A → List A → List A
  insert_by x [] = x ∷ []
  insert_by x (y ∷ ys) = if le x y then x ∷ y ∷ ys else y ∷ insert_by x ys

  unfoldable pub sort_by : List A → List A
  unfolding insert_by
  sort_by [] = []
  sort_by (x ∷ xs) = insert_by x (sort_by xs)

  abbrev pub IsSorted : List A → Type 0
  IsSorted [] = Unit
  IsSorted (x ∷ xs) = All (λ y. le x y ≡ true) xs × IsSorted xs

  insert_by-permᴰ : (x : A) (ys : List A) → Permᴰ (insert_by x ys) (x ∷ ys)
  unfolding insert_by
  insert_by-permᴰ x [] = Permᴰ.refl (x ∷ [])
  insert_by-permᴰ x (y ∷ ys) = elim (Bool-cases (le x y)) [
    | inl e ↦ rw e (Permᴰ.refl (x ∷ y ∷ ys))
    | inr e ↦ rw e (Permᴰ.trans (Permᴰ.cons refl (insert_by-permᴰ x ys)) (Permᴰ.swap refl refl))
  ]

  sort_by-cons-permᴰ :
      (x : A) (xs : List A) → Permᴰ (sort_by xs) xs → Permᴰ (sort_by (x ∷ xs)) (x ∷ xs)
  sort_by-cons-permᴰ x xs d =
      unfold sort_by in Permᴰ.trans (insert_by-permᴰ x (sort_by xs)) (Permᴰ.cons refl d)

  sort_by-permᴰ : (xs : List A) → Permᴰ (sort_by xs) xs
  sort_by-permᴰ [] = unfold sort_by in Permᴰ.nil
  sort_by-permᴰ (x ∷ xs) = sort_by-cons-permᴰ x xs (sort_by-permᴰ xs)

  pub sort_by-perm : (xs : List A) → Perm (sort_by xs) xs
  sort_by-perm xs = ∣ sort_by-permᴰ xs ∣₁

  length-insert_by : (x : A) (ys : List A) → length (insert_by x ys) ≡ suc (length ys)
  unfolding insert_by
  length-insert_by x [] = refl
  length-insert_by x (y ∷ ys) = ground (arith, length-insert_by x ys)

  pub length-sort_by : (xs : List A) → length (sort_by xs) ≡ length xs
  unfolding sort_by
  length-sort_by [] = refl
  length-sort_by (x ∷ xs) = length-insert_by x (sort_by xs) ∙ ap suc (length-sort_by xs)

-- what the sort needs of its order; `antisym` only where the result has to be unique
pub record TotalOrder {ℓ} {A : Type ℓ} (le : A → A → Bool) : Type ℓ where
  pub total : (a b : A) → le a b ≡ false → le b a ≡ true
  pub trans : (a b c : A) → le a b ≡ true → le b c ≡ true → le a c ≡ true

module _ {ℓ} {A : Type ℓ} (le : A → A → Bool) (o : TotalOrder le) where
  All-trans :
      (x y : A) (ys : List A)
      → le x y ≡ true
      → All (λ z. le y z ≡ true) ys
      → All (λ z. le x z ≡ true) ys
  All-trans x y [] h a = tt
  All-trans x y (z ∷ zs) h (a, as') = (o.trans x y z h a, All-trans x y zs h as')

  All-insert_by :
      (P : A → Type 0) (x : A) (ys : List A) → P x → All P ys → All P (insert_by le x ys)
  unfolding insert_by
  All-insert_by P x [] p a = (p, tt)
  All-insert_by P x (y ∷ ys) p (a, as') = elim (Bool-cases (le x y)) [
    | inl e ↦ rw e (p, (a, as'))
    | inr e ↦ rw e (a, All-insert_by P x ys p as')
  ]

  insert_by-IsSorted : (x : A) (ys : List A) → IsSorted le ys → IsSorted le (insert_by le x ys)
  unfolding insert_by
  insert_by-IsSorted x [] h = (tt, tt)
  insert_by-IsSorted x (y ∷ ys) (a, s) = elim (Bool-cases (le x y)) [
    | inl e ↦ rw e ((e, All-trans x y ys e a), (a, s))
    | inr e ↦ rw e (All-insert_by _ x ys (o.total x y e) a, insert_by-IsSorted x ys s)
  ]

  pub sort_by-IsSorted : (xs : List A) → IsSorted le (sort_by le xs)
  unfolding sort_by
  sort_by-IsSorted [] = tt
  sort_by-IsSorted (x ∷ xs) = insert_by-IsSorted x (sort_by le xs) (sort_by-IsSorted xs)

  module _ (antisym : (a b : A) → le a b ≡ true → le b a ≡ true → a ≡ b) where
    insert_by_comm :
        (x y : A) (l : List A)
        → insert_by le x (insert_by le y l) ≡ insert_by le y (insert_by le x l)
    unfolding insert_by
    insert_by_comm x y [] = ground (arith, o.total x y, antisym x y)
    insert_by_comm x y (z ∷ l) = ground (
      arith,
      o.total x y,
      o.total x z,
      o.total y z,
      antisym x y,
      antisym x z,
      antisym y z,
      o.trans x y z,
      o.trans y x z,
      o.trans x z y,
      o.trans y z x,
      o.trans z x y,
      o.trans z y x,
      insert_by_comm x y l,
    )

    pub sort_by-eq_of_permᴰ : {xs ys : List A} → Permᴰ xs ys → sort_by le xs ≡ sort_by le ys
    unfolding sort_by
    sort_by-eq_of_permᴰ Permᴰ.nil = refl
    sort_by-eq_of_permᴰ (Permᴰ.cons e d) = λ i. insert_by le (e i) (sort_by-eq_of_permᴰ d i)
    sort_by-eq_of_permᴰ (Permᴰ.swap {a = a} {b = b} {l = l} e f) =
        insert_by_comm a b (sort_by le l)
        ∙ (λ i. insert_by le (f i) (insert_by le (e i) (sort_by le l)))
    sort_by-eq_of_permᴰ (Permᴰ.trans d d') = sort_by-eq_of_permᴰ d ∙ sort_by-eq_of_permᴰ d'
