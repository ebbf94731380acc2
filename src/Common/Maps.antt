-- ===== src/Common/Maps.antt =====
-- A Go map with string keys, as the list of its entries in the order in which a `range` meets
-- them. That order is Go's to choose, so what the program computes must not depend on it.
use mathlib.Core.Path.{◌≡◌, refl, sym, ◌∙◌, ap}
use mathlib.Core.Option.{Option, none, some}
use mathlib.Core.List.{List, [], ◌∷◌, Permᴰ}
use mathlib.Core.Logic.{inl, inr}
use native.Mathlib.Omega.{arith}
use nats_operator_experiment.Common.Tests.{if◌then◌else◌, Bool-cases}
use nats_operator_experiment.Common.Strings.{Str, str_eq, str_eq_iff, str_eq_refl, str_eq_sym}

abbrev pub Map {ℓ} : Type ℓ → Type ℓ
Map V = List (Str × V)

fst_eq {ℓ} : {V : Type ℓ} {a b : Str × V} → a ≡ b → a.0 ≡ b.0
fst_eq e = λ i. (e i).0

snd_eq {ℓ} : {V : Type ℓ} {a b : Str × V} → a ≡ b → a.1 ≡ b.1
snd_eq e = λ i. (e i).1

module _ {ℓ} {V : Type ℓ} where
  -- `v, ok := m[k]`
  unfoldable pub find : Str → Map V → Option V
  find k [] = none
  find k ((j, v) ∷ m) = if str_eq j k then some v else find k m

  -- `m[k] = v`
  unfoldable pub put : Str → V → Map V → Map V
  put k v [] = (k, v) ∷ []
  put k v ((j, w) ∷ m) = if str_eq j k then (k, v) ∷ m else (j, w) ∷ put k v m

  -- `delete(m, k)`
  unfoldable pub remove : Str → Map V → Map V
  remove k [] = []
  remove k ((j, w) ∷ m) = if str_eq j k then remove k m else (j, w) ∷ remove k m

  abbrev pub keys : Map V → List Str
  keys [] = []
  keys ((j, v) ∷ m) = j ∷ keys m

  -- no key stands twice
  abbrev pub UniqueKeys : Map V → Type ℓ
  UniqueKeys [] = Unit
  UniqueKeys ((j, v) ∷ m) = (find j m ≡ none) × UniqueKeys m

  pub find-put :
      (k j : Str) (v : V) (m : Map V)
      → find j (put k v m) ≡ (if str_eq k j then some v else find j m)
  unfolding find put
  find-put k j v [] = refl
  find-put k j v ((i, w) ∷ m) =
      ground (arith, str_eq_iff k j, str_eq_iff i k, str_eq_iff i j, find-put k j v m)

  pub find-remove :
      (k j : Str) (m : Map V) → find j (remove k m) ≡ (if str_eq k j then none else find j m)
  unfolding find remove
  find-remove k j [] = ground arith
  find-remove k j ((i, w) ∷ m) =
      ground (arith, str_eq_iff k j, str_eq_iff i k, str_eq_iff i j, find-remove k j m)

  pub find-put_self : (k : Str) (v : V) (m : Map V) → find k (put k v m) ≡ some v
  find-put_self k v m = simp (find-put, str_eq_refl)

  pub put-UniqueKeys : (k : Str) (v : V) (m : Map V) → UniqueKeys m → UniqueKeys (put k v m)
  unfolding put
  put-UniqueKeys k v [] u = unfold find in (refl, tt)
  put-UniqueKeys k v ((i, w) ∷ m) (a, u) = elim (Bool-cases (str_eq i k)) [
    | inl e ↦ rw e (rw (← (str_eq_iff i k).0 e) a, u)
    | inr e ↦
        rw e (
          find-put k i v m ∙ ground (arith, str_eq_iff i k, str_eq_iff k i),
          put-UniqueKeys k v m u,
        )
  ]

  -- What a lookup finds does not depend on the order of the entries.
  pub find-eq_of_permᴰ :
      {m m' : Map V}
      → Permᴰ m m'
      → UniqueKeys m
      → UniqueKeys m' × ((k : Str) → find k m ≡ find k m')
  unfolding find
  find-eq_of_permᴰ Permᴰ.nil u = (u, λ k. refl)
  find-eq_of_permᴰ (Permᴰ.cons {a = (j, v)} {b = (j', v')} {l₁ = m} {l₂ = m'} e d) (a, u) =
      let (u', same) = find-eq_of_permᴰ d u in
      (
        (sym (ap (λ (x : Str × V). find x.0 m') e) ∙ sym (same j) ∙ a, u'),
        λ k i. if str_eq (e i).0 k then some (e i).1 else same k i,
      )
  find-eq_of_permᴰ
        (Permᴰ.swap {a = (j, v)} {b = (i, w)} {a' = (i', w')} {b' = (j', v')} {l = l} e f)
        (a, (b, u)) =
      (
        (
          ground (arith, str_eq_iff i j, str_eq_iff i' j', fst_eq e, fst_eq f, str_eq_sym i j),
          (ground (arith, str_eq_iff i j, fst_eq e), u),
        ),
        λ k. ground (
          arith,
          fst_eq e,
          fst_eq f,
          snd_eq e,
          snd_eq f,
          str_eq_iff i j,
          str_eq_iff j k,
          str_eq_iff i k,
        ),
      )
  find-eq_of_permᴰ (Permᴰ.trans d d') u =
      let (u', same) = find-eq_of_permᴰ d u in
      let (u'', same') = find-eq_of_permᴰ d' u' in (u'', λ k. same k ∙ same' k)
