-- ===== src/Common/Map.antt =====
-- Go maps keyed by strings, as association lists. A fresh key goes to the end of the list, so the
-- order of a list is some order in which `range` may visit the map.
use Prim.Native.Nat.{ℕ, ◌+◌, ◌≤◌}
use mathlib.Core.Path.{◌≡◌, refl}
use mathlib.Core.Option.{Option, none, some}
use mathlib.Core.List.{List, [], ◌∷◌}
use native.Mathlib.Omega.{arith}
use mathlib.Core.Logic.{inl, inr}
use outboxd.Common.Tests.{if◌then◌else◌, Option-cases}
use outboxd.Common.Lists.{length}
use outboxd.Common.Text.{Bytes, str_eq, str_eq_iff, str_eq_refl}

abbrev pub Map {ℓ} : Type ℓ → Type ℓ
Map V = List (Bytes × V)

module _ {ℓ} {V : Type ℓ} where
  -- m[k], with `none` for a missing key
  unfoldable pub get : Bytes → Map V → Option V
  get k [] = none
  get k ((j, v) ∷ m) = if str_eq j k then some v else get k m

  -- m[k] = v
  unfoldable pub insert : Bytes → V → Map V → Map V
  insert k v [] = (k, v) ∷ []
  insert k v ((j, w) ∷ m) = if str_eq j k then (j, v) ∷ m else (j, w) ∷ insert k v m

  -- delete(m, k)
  unfoldable pub remove : Bytes → Map V → Map V
  remove k [] = []
  remove k ((j, w) ∷ m) = let rest = remove k m in if str_eq j k then rest else (j, w) ∷ rest

  -- Writes through the pointer m[k], if there is one.
  unfoldable pub modify : Bytes → (V → V) → Map V → Map V
  modify k f m = elim (get k m) [ none ↦ m | some v ↦ insert k (f v) m ]

  -- A Go map has one entry for a key.
  abbrev pub Distinct : Map V → Type ℓ
  Distinct [] = Unit
  Distinct ((j, w) ∷ m) = (get j m ≡ none) × Distinct m

  pub get-insert :
      (k j : Bytes) (v : V) (m : Map V)
      → get j (insert k v m) ≡ (if str_eq k j then some v else get j m)
  unfolding get insert
  get-insert k j v [] = refl
  get-insert k j v ((i, w) ∷ m) =
      ground (arith, str_eq_iff k j, str_eq_iff i k, str_eq_iff i j, get-insert k j v m)

  pub get-remove :
      (k j : Bytes) (m : Map V) → get j (remove k m) ≡ (if str_eq k j then none else get j m)
  unfolding get remove
  get-remove k j [] = ground arith
  get-remove k j ((i, w) ∷ m) =
      ground (arith, str_eq_iff k j, str_eq_iff i k, str_eq_iff i j, get-remove k j m)

  pub insert-Distinct : (k : Bytes) (v : V) (m : Map V) → Distinct m → Distinct (insert k v m)
  unfolding insert get
  insert-Distinct k v [] d = (refl, tt)
  insert-Distinct k v ((i, w) ∷ m) d =
      ground (arith, str_eq_iff i k, str_eq_iff k i, get-insert k i v m, insert-Distinct k v m d.1)

  pub remove-Distinct : (k : Bytes) (m : Map V) → Distinct m → Distinct (remove k m)
  unfolding remove get
  remove-Distinct k [] d = tt
  remove-Distinct k ((i, w) ∷ m) d =
      ground (arith, str_eq_iff k i, get-remove k i m, remove-Distinct k m d.1)

  pub remove_absent : (k : Bytes) (m : Map V) → get k m ≡ none → remove k m ≡ m
  unfolding get remove
  remove_absent k [] h = refl
  remove_absent k ((i, w) ∷ m) h = ground (arith, remove_absent k m)

  pub length-remove-le : (k : Bytes) (m : Map V) → length (remove k m) ≤ length m
  unfolding remove
  length-remove-le k [] = omega arith
  length-remove-le k ((i, w) ∷ m) = ground (arith, length-remove-le k m)

  pub get-modify :
      (k j : Bytes) (f : V → V) (m : Map V) (v : V)
      → get k m ≡ some v
      → get j (modify k f m) ≡ (if str_eq k j then some (f v) else get j m)
  unfolding modify
  get-modify k j f m v e = rw (e, modify) (get-insert k j (f v) m)

  pub modify-Distinct : (k : Bytes) (f : V → V) (m : Map V) → Distinct m → Distinct (modify k f m)
  unfolding modify
  modify-Distinct k f m d = elim (Option-cases (get k m)) [
    | inl e ↦ rw (e, modify) d
    | inr (v, e) ↦ rw (e, modify) (insert-Distinct k (f v) m d)
  ]

  pub modify_present :
      (k : Bytes) (f : V → V) (m : Map V) (v : V)
      → get k m ≡ some v
      → modify k f m ≡ insert k (f v) m
  unfolding modify
  modify_present k f m v e = rw (e, modify)

  abbrev pub weight : (Bytes → V → ℕ) → Bytes → Option V → ℕ
  weight f k none = 0
  weight f k (some v) = f k v

  -- The sum of `f` over the entries.
  unfoldable pub total : (Bytes → V → ℕ) → Map V → ℕ
  total f [] = 0
  total f ((k, v) ∷ m) = f k v + total f m

  pub total-insert :
      (f : Bytes → V → ℕ) (k : Bytes) (v : V) (m : Map V)
      → total f (insert k v m) + weight f k (get k m) ≡ total f m + f k v
  unfolding total insert get
  total-insert f k v [] = omega arith
  total-insert f k v ((i, w) ∷ m) = ground (arith, str_eq_iff i k, total-insert f k v m)

  pub total-remove :
      (f : Bytes → V → ℕ) (k : Bytes) (m : Map V)
      → Distinct m
      → total f (remove k m) + weight f k (get k m) ≡ total f m
  unfolding total remove get
  total-remove f k [] d = omega arith
  total-remove f k ((i, w) ∷ m) d = ground (arith, str_eq_iff i k, total-remove f k m d.1)

  pub weight-le-total :
      (f : Bytes → V → ℕ) (k : Bytes) (m : Map V) → weight f k (get k m) ≤ total f m
  unfolding total get
  weight-le-total f k [] = omega arith
  weight-le-total f k ((i, w) ∷ m) = ground (arith, str_eq_iff i k, weight-le-total f k m)

pub ruleset map_laws = (get-insert, get-remove, str_eq_refl)
