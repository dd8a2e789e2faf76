-- ===== src/Permissions/Sets.antt =====
-- Sets of texts as lists in ascending order.
use Prim.Native.Nat.{Ordering}
use Prim.Native.String.{compare}
use vinc_api.Base.{
  String, string_eq, ◌==◌, ==_sound, ◌≡◌, refl, ◌||◌, List, [], ◌∷◌, contains, arith, if◌then◌else◌,
  Bool-cases, inl, inr,
}

-- `set.add`
unfoldable pub add : String → List String → List String
add x [] = x ∷ []
add x (y ∷ ys) =
    let rest = add x ys in
    if x == y then y ∷ ys else elim (compare x y) [ Ordering.lt ↦ x ∷ y ∷ ys | _ ↦ y ∷ rest ]

-- The texts are added one by one.
unfoldable pub add_all : List String → List String → List String
unfolding add
add_all [] s = s
add_all (x ∷ xs) s = add_all xs (add x s)

pub contains-add :
    (z x : String) (s : List String) → contains z (add x s) ≡ (z == x || contains z s)
unfolding contains add
contains-add z x [] = refl
contains-add z x (y ∷ ys) = elim (Bool-cases (x == y)) [
  | inl e ↦ let same = ==_sound x y e in rw e (ground (arith, same))
  | inr e ↦ rw e (ground (arith, contains-add z x ys))
]

pub contains-add_all :
    (z : String) (xs s : List String) → contains z (add_all xs s) ≡ (contains z xs || contains z s)
unfolding contains add_all
contains-add_all z [] s = refl
contains-add_all z (x ∷ xs) s = ground (arith, contains-add_all z xs (add x s), contains-add z x s)
