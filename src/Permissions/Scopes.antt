-- ===== src/Permissions/Scopes.antt =====
-- Which supplier scopes a document has.
use vinc_api.Base.{
  ◌≡◌, refl, String, string_eq, ◌==◌, ==_sound, ==_refl, Bool, true, false, not, ◌&&◌, none, some,
  List, [], ◌∷◌, arith, any, contains, lower, Option-cases, Bool-cases, inl, inr,
}
use vinc_api.Permissions.{
  MembershipEntry, MembershipDoc, supplier_scope, unique_from, unique_supplier_scope_ids,
}

-- The entry has the scope, in lower case.
unfoldable pub has_scope : String → MembershipEntry → Bool
has_scope k e = elim (supplier_scope e) [ none ↦ false | some s ↦ k == lower s ]

abbrev pub lowers : List String → List String
lowers [] = []
lowers (x ∷ xs) = lower x ∷ lowers xs

-- No two of the texts are equal up to case.
abbrev pub IsDistinct : List String → Type 0
IsDistinct [] = Unit
IsDistinct (x ∷ xs) = (contains (lower x) (lowers xs) ≡ false) × IsDistinct xs

module _ (seen : List String) (e : MembershipEntry) (es : List MembershipEntry) where
  unique_from-none : supplier_scope e ≡ none → unique_from seen (e ∷ es) ≡ unique_from seen es
  unfolding unique_from
  unique_from-none q = rw (unique_from, q) refl

  unique_from-seen :
      (s : String)
      → supplier_scope e ≡ some s
      → contains (lower s) seen ≡ true
      → unique_from seen (e ∷ es) ≡ unique_from seen es
  unfolding unique_from
  unique_from-seen s q y = rw (unique_from, q, y) refl

  unique_from-new :
      (s : String)
      → supplier_scope e ≡ some s
      → contains (lower s) seen ≡ false
      → unique_from seen (e ∷ es) ≡ s ∷ unique_from (lower s ∷ seen) es
  unfolding unique_from
  unique_from-new s q n = rw (unique_from, q, n) refl

has_scope-some :
    (k s : String) (e : MembershipEntry)
    → supplier_scope e ≡ some s
    → has_scope k e ≡ (k == lower s)
unfolding has_scope
has_scope-some k s e q = rw (has_scope, q) refl

contains-unique_from :
    (k : String) (seen : List String) (es : List MembershipEntry)
    → contains k (lowers (unique_from seen es)) ≡ (any (has_scope k) es && not (contains k seen))
unfolding any contains
contains-unique_from k seen [] = unfold unique_from in refl
contains-unique_from k seen (e ∷ es) = elim (Option-cases (supplier_scope e)) [
  | inl q ↦
      let absent : has_scope k e ≡ false = unfold has_scope in rw (has_scope, q) refl in
      rw (unique_from-none seen e es q, absent) (contains-unique_from k seen es)
  | inr (s, q) ↦ elim (Bool-cases (contains (lower s) seen)) [
    | inl y ↦
        let same : k == lower s ≡ true → contains k seen ≡ true =
          λ h. rw (==_sound k (lower s) h) y in
        rw (unique_from-seen seen e es s q y, has_scope-some k s e q)
          (ground (arith, same, contains-unique_from k seen es))
    | inr n ↦
        rw (unique_from-new seen e es s q n, has_scope-some k s e q)
          (ground (arith, contains-unique_from k (lower s ∷ seen) es, new_scope k s seen n))
  ]
]
  where
    new_scope :
        (k s : String) (seen : List String)
        → contains (lower s) seen ≡ false
        → k == lower s ≡ true
        → contains k seen ≡ false
    new_scope k s seen n h = rw (==_sound k (lower s) h) n

unique_from-IsDistinct :
    (seen : List String) (es : List MembershipEntry) → IsDistinct (unique_from seen es)
unique_from-IsDistinct seen [] = unfold unique_from in tt
unique_from-IsDistinct seen (e ∷ es) = elim (Option-cases (supplier_scope e)) [
  | inl q ↦ rw (unique_from-none seen e es q) (unique_from-IsDistinct seen es)
  | inr (s, q) ↦ elim (Bool-cases (contains (lower s) seen)) [
    | inl y ↦ rw (unique_from-seen seen e es s q y) (unique_from-IsDistinct seen es)
    | inr n ↦ rw (unique_from-new seen e es s q n) (
      unfold contains in
          ground (arith, contains-unique_from (lower s) (lower s ∷ seen) es, ==_refl (lower s)),
      unique_from-IsDistinct (lower s ∷ seen) es,
    )
  ]
]

-- The supplier scopes of a document are distinct up to case, and a text in lower case is one of them
-- in lower case exactly if some entry has it as its supplier scope in lower case.
pub unique_supplier_scope_ids_lem :
    (doc : MembershipDoc)
    → IsDistinct (unique_supplier_scope_ids doc)
      × ((k : String)
          → contains k (lowers (unique_supplier_scope_ids doc)) ≡ any (has_scope k) doc.memberships)
unfolding unique_supplier_scope_ids contains
unique_supplier_scope_ids_lem doc = (
  unique_from-IsDistinct [] doc.memberships,
  λ k. ground (arith, contains-unique_from k [] doc.memberships),
)
