-- ===== src/Deliver/Discovery/Preferences.antt =====
-- internal/deliver/discovery.go: the records of a domain in the order of their preference.
use outboxd.Common.{
  ℕ, ◌≤◌, Option, none, some, List, [], ◌∷◌, ◌++◌, ◌==◌, ◌≡◌, inl, inr, refl, arith, All,
  Bool-cases,
}
use outboxd.Deliver.Discovery.{
  Mx, insert, sort, mx_before, join_group, groups, order_groups, rotate,
}

-- The preferences never fall, from a number on.
abbrev pub Ascending : ℕ → List Mx → Type 0
Ascending n [] = Unit
Ascending n (r ∷ rs) = (n ≤ r.pref) × Ascending r.pref rs

pub Ascending-le : (m n : ℕ) (rs : List Mx) → m ≤ n → Ascending n rs → Ascending m rs
Ascending-le m n [] h a = tt
Ascending-le m n (r ∷ rs) h a = (omega (arith, a.0), a.1)

insert-Ascending :
    (n : ℕ) (r : Mx) (rs : List Mx)
    → n ≤ r.pref
    → Ascending n rs
    → Ascending n (insert mx_before r rs)
unfolding insert
insert-Ascending n r [] h a = (h, tt)
insert-Ascending n r (x ∷ rs) h a = elim (Bool-cases (mx_before x r)) [
  | inl e ↦ rw e (a.0, insert-Ascending x.pref r rs (ground arith) a.1)
  | inr e ↦ rw e (h, (ground arith, a.1))
]

sort-Ascending : (rs : List Mx) → Ascending 0 (sort mx_before rs)
unfolding sort
sort-Ascending [] = tt
sort-Ascending (r ∷ rs) = insert-Ascending 0 r (sort mx_before rs) (omega arith) (sort-Ascending rs)

insert-All :
    (P : Mx → Type 0) (r : Mx) (rs : List Mx) → P r → All P rs → All P (insert mx_before r rs)
unfolding insert
insert-All P r [] p h = (p, tt)
insert-All P r (x ∷ rs) p h = elim (Bool-cases (mx_before x r)) [
  | inl e ↦ rw e (h.0, insert-All P r rs p h.1)
  | inr e ↦ rw e (p, (h.0, h.1))
]

sort-All : (P : Mx → Type 0) (rs : List Mx) → All P rs → All P (sort mx_before rs)
unfolding sort
sort-All P [] h = tt
sort-All P (r ∷ rs) h = insert-All P r (sort mx_before rs) h.0 (sort-All P rs h.1)

-- An order puts no record in that the group has not.
abbrev pub Keeps : (List Mx → List Mx) → Type 1
Keeps order = (P : Mx → Type 0) (rs : List Mx) → All P rs → All P (order rs)

abbrev pub KeepsRecords : Option (List Mx → List Mx) → Type 1
KeepsRecords none = Unit
KeepsRecords (some order) = Keeps order

-- Each group has one preference, and the preferences never fall.
abbrev AscendingGroups : ℕ → List (List Mx) → Type 0
AscendingGroups n [] = Unit
AscendingGroups n (g ∷ gs) = (p : ℕ) × (n ≤ p) × All (λ r. r.pref ≡ p) g × AscendingGroups p gs

AscendingGroups-le :
    (m n : ℕ) (gs : List (List Mx)) → m ≤ n → AscendingGroups n gs → AscendingGroups m gs
AscendingGroups-le m n [] h a = tt
AscendingGroups-le m n (g ∷ gs) h (p, le, one, rest) = (p, omega arith, one, rest)

join_group-Ascending :
    (n : ℕ) (r : Mx) (gs : List (List Mx))
    → n ≤ r.pref
    → AscendingGroups r.pref gs
    → AscendingGroups n (join_group r gs)
join_group-Ascending n r [] h a = (r.pref, h, (refl, tt), tt)
join_group-Ascending n r ([] ∷ gs) h (p, le, one, rest) =
    (r.pref, h, (refl, tt), AscendingGroups-le r.pref p gs le rest)
join_group-Ascending n r ((x ∷ g) ∷ gs) h (p, le, one, rest) =
    elim (Bool-cases (r.pref == x.pref)) [
      | inl e ↦ rw e (p, omega arith, (ground arith, one), rest)
      | inr e ↦ rw e (r.pref, h, (refl, tt), (p, le, one, rest))
    ]

groups-Ascending : (n : ℕ) (rs : List Mx) → Ascending n rs → AscendingGroups n (groups rs)
unfolding groups
groups-Ascending n [] a = tt
groups-Ascending n (r ∷ rs) a =
    join_group-Ascending n r (groups rs) a.0 (groups-Ascending r.pref rs a.1)

append-Ascending :
    (n p : ℕ) (g rs : List Mx)
    → n ≤ p
    → All (λ r. r.pref ≡ p) g
    → Ascending p rs
    → Ascending n (g ++ rs)
append-Ascending n p [] rs le one a = Ascending-le n p rs le a
append-Ascending n p (r ∷ g) rs le one a =
    (omega (arith, one.0), append-Ascending r.pref p g rs (omega (arith, one.0)) one.1 a)

order_groups-Ascending :
    (order : List Mx → List Mx) (n : ℕ) (gs : List (List Mx))
    → Keeps order
    → AscendingGroups n gs
    → Ascending n (order_groups order gs)
unfolding order_groups
order_groups-Ascending order n [] keeps a = tt
order_groups-Ascending order n (g ∷ gs) keeps (p, le, one, rest) =
    append-Ascending n p (order g) (order_groups order gs) le (keeps (λ r. r.pref ≡ p) g one)
      (order_groups-Ascending order p gs keeps rest)

abbrev AllGroups : (Mx → Type 0) → List (List Mx) → Type 0
AllGroups P [] = Unit
AllGroups P (g ∷ gs) = All P g × AllGroups P gs

join_group-All :
    (P : Mx → Type 0) (r : Mx) (gs : List (List Mx))
    → P r
    → AllGroups P gs
    → AllGroups P (join_group r gs)
join_group-All P r [] p h = ((p, tt), tt)
join_group-All P r ([] ∷ gs) p h = ((p, tt), h.1)
join_group-All P r ((x ∷ g) ∷ gs) p h = elim (Bool-cases (r.pref == x.pref)) [
  | inl e ↦ rw e ((p, h.0), h.1)
  | inr e ↦ rw e ((p, tt), (h.0, h.1))
]

groups-All : (P : Mx → Type 0) (rs : List Mx) → All P rs → AllGroups P (groups rs)
unfolding groups
groups-All P [] h = tt
groups-All P (r ∷ rs) h = join_group-All P r (groups rs) h.0 (groups-All P rs h.1)

append-All : (P : Mx → Type 0) (g rs : List Mx) → All P g → All P rs → All P (g ++ rs)
append-All P [] rs h k = k
append-All P (r ∷ g) rs h k = (h.0, append-All P g rs h.1 k)

order_groups-All :
    (P : Mx → Type 0) (order : List Mx → List Mx) (gs : List (List Mx))
    → Keeps order
    → AllGroups P gs
    → All P (order_groups order gs)
unfolding order_groups
order_groups-All P order [] keeps h = tt
order_groups-All P order (g ∷ gs) keeps h =
    append-All P (order g) (order_groups order gs) (keeps P g h.0)
      (order_groups-All P order gs keeps h.1)

-- The rotation keeps the order of the preferences, and the records.
pub rotate-Ascending :
    (order : Option (List Mx → List Mx)) (rs : List Mx)
    → KeepsRecords order
    → Ascending 0 (rotate order (sort mx_before rs))
rotate-Ascending none rs keeps = sort-Ascending rs
rotate-Ascending (some order) rs keeps =
    order_groups-Ascending order 0 (groups (sort mx_before rs)) keeps
      (groups-Ascending 0 (sort mx_before rs) (sort-Ascending rs))

pub rotate-All :
    (P : Mx → Type 0) (order : Option (List Mx → List Mx)) (rs : List Mx)
    → KeepsRecords order
    → All P rs
    → All P (rotate order (sort mx_before rs))
rotate-All P none rs keeps h = sort-All P rs h
rotate-All P (some order) rs keeps h =
    order_groups-All P order (groups (sort mx_before rs)) keeps
      (groups-All P (sort mx_before rs) (sort-All P rs h))
