-- ===== src/Base/Keys.antt =====
-- Keys that stand only once.
use Prim.Native.Nat.{ℕ}
use mathlib.Core.Path.{◌≡◌, refl}
use mathlib.Core.Logic.{inl, inr}
use mathlib.Core.Bool.{Bool, true, false, not, ◌&&◌, ◌||◌}
use mathlib.Core.List.{List, [], ◌∷◌, ◌++◌, map}
use native.Mathlib.Omega.{arith}
use vinc_api.Base.Equality.{contains, ◌==◌, nat_eq, ==_sound, ==_refl}
use vinc_api.Base.Lists.{All, where_rows}
use vinc_api.Base.Tests.{Bool-cases}

-- A key that the database holds only once.
unfoldable pub no_repeat : List ℕ → Bool
unfolding contains
no_repeat [] = true
no_repeat (x ∷ xs) = not (contains x xs) && no_repeat xs

==_sym : (x y : ℕ) → x == y ≡ false → y == x ≡ false
==_sym x y h = elim (Bool-cases (y == x)) [
  | inr e ↦ e
  | inl e ↦ let same : y ≡ x = ==_sound y x e in absurd (ground (arith, ==_refl x))
]

pub contains-append :
    (x : ℕ) (xs ys : List ℕ) → contains x (xs ++ ys) ≡ (contains x xs || contains x ys)
unfolding contains
contains-append x [] ys = refl
contains-append x (y ∷ xs) ys = ground (arith, contains-append x xs ys)

-- Keys that a list does not hold, in the list's head and in its tail.
pub contains-away :
    (k : ℕ) (seen xs : List ℕ)
    → All (λ i. contains i (k ∷ seen) ≡ false) xs
    → (contains k xs ≡ false) × All (λ i. contains i seen ≡ false) xs
unfolding contains
contains-away k seen [] h = (refl, tt)
contains-away k seen (x ∷ xs) (h, hs) =
    let (away, rest) = contains-away k seen xs hs in
    elim (Bool-cases (x == k)) [
      | inl e ↦ absurd (ground arith)
      | inr e ↦ (rw (==_sym x k e) away, (ground arith, rest))
    ]

-- Keys that two lists do not hold.
pub contains-apart :
    (ks seen xs : List ℕ)
    → All (λ i. contains i (ks ++ seen) ≡ false) xs
    → All (λ i. contains i ks ≡ false) xs × All (λ i. contains i seen ≡ false) xs
contains-apart ks seen [] h = (tt, tt)
contains-apart ks seen (x ∷ xs) (h, hs) =
    let (a, b) = contains-apart ks seen xs hs in
    ((ground (arith, contains-append x ks seen), a), (ground (arith, contains-append x ks seen), b))

pub no_repeat-append :
    (xs ys : List ℕ)
    → no_repeat xs ≡ true
    → no_repeat ys ≡ true
    → All (λ i. contains i xs ≡ false) ys
    → no_repeat (xs ++ ys) ≡ true
unfolding no_repeat
no_repeat-append [] ys hx hy h = hy
no_repeat-append (x ∷ xs) ys hx hy h =
    let (away, rest) = contains-away x xs ys h in
    ground (arith, contains-append x xs ys, no_repeat-append xs ys)

-- A query's rows have no more keys than the table.
module _ {A : Type 0} (key : A → ℕ) (p : A → Bool) where
  contains-where_rows :
      (k : ℕ) (xs : List A)
      → contains k (map key xs) ≡ false
      → contains k (map key (where_rows p xs)) ≡ false
  unfolding where_rows contains
  contains-where_rows k [] h = refl
  contains-where_rows k (x ∷ xs) h = elim (Bool-cases (p x)) [
    | inl e ↦ rw e (ground (arith, contains-where_rows k xs))
    | inr e ↦ rw e (ground (arith, contains-where_rows k xs))
  ]

  pub no_repeat-where_rows :
      (xs : List A) → no_repeat (map key xs) ≡ true → no_repeat (map key (where_rows p xs)) ≡ true
  unfolding where_rows no_repeat
  no_repeat-where_rows [] h = refl
  no_repeat-where_rows (x ∷ xs) h = elim (Bool-cases (p x)) [
    | inl e ↦ rw e (ground (arith, no_repeat-where_rows xs, contains-where_rows (key x) xs))
    | inr e ↦ rw e (ground (arith, no_repeat-where_rows xs))
  ]
