-- ===== src/Permissions/Stored.antt =====
-- A membership document that was persisted is the one that is loaded.
use vinc_api.Base.{
  ◌≡◌, refl, String, string_eq, ◌==◌, ==_refl, ==_sound, false, some, List, [], ◌∷◌, find, arith,
  Bool-cases, inl, inr,
}
use vinc_api.Permissions.{MembershipDoc}
use vinc_api.Permissions.Resolve.{
  has_user_key, load_membership_doc, persist_membership_doc, upsert_document,
}

module _ (doc : MembershipDoc) where
  find-upsert_document :
      (docs : List MembershipDoc)
      → find (has_user_key doc.user_key) (upsert_document doc docs) ≡ some doc
  unfolding find upsert_document has_user_key
  find-upsert_document [] = rw (==_refl doc.user_key) refl
  find-upsert_document (d ∷ ds) = elim (Bool-cases (d.user_key == doc.user_key)) [
    | inl e ↦ rw e (rw (==_refl doc.user_key) refl)
    | inr e ↦ rw e (rw e (find-upsert_document ds))
  ]

  find-upsert_document-other :
      (k : String)
      → (doc.user_key == k) ≡ false
      → (docs : List MembershipDoc)
      → find (has_user_key k) (upsert_document doc docs) ≡ find (has_user_key k) docs
  unfolding find upsert_document has_user_key
  find-upsert_document-other k n [] = rw n refl
  find-upsert_document-other k n (d ∷ ds) = elim (Bool-cases (d.user_key == doc.user_key)) [
    | inl e ↦
        let same = ==_sound d.user_key doc.user_key e in
        let other : (d.user_key == k) ≡ false = rw same n in rw e (rw (n, other) refl)
    | inr e ↦ rw e (ground (arith, find-upsert_document-other k n ds))
  ]

  -- Into a database that is there, persisting a document returns it; then it is what is loaded for its
  -- key, and for every other key the same is loaded as before.
  load-persist_membership_doc :
      (docs : List MembershipDoc)
      → let (returned, store) = persist_membership_doc doc (some docs) in
        (load_membership_doc doc.user_key store ≡ some doc)
        × ((k : String)
            → (doc.user_key == k) ≡ false
            → load_membership_doc k store ≡ load_membership_doc k (some docs))
  unfolding persist_membership_doc load_membership_doc
  load-persist_membership_doc docs =
      (find-upsert_document docs, λ k n. find-upsert_document-other k n docs)
