-- ===== src/Users/Links/Routes/Runs.antt =====
-- Sequences of requests to the routes on links that write.
use vinc_api.Base.{
  sym, ◌∙◌, refl, err, false, true, arith, ℕ, ◌≡◌, ◌≢◌, String, string_eq, nat_eq, Bool, Option,
  List, Result, ok,
}
use vinc_api.Users.Model.{
  LinkType, link_type_eq, EventType, event_type_eq, Store, User, link_status_eq,
}
use vinc_api.Users.Links.{Change}
use vinc_api.Users.Links.Requests.{
  a_database, HttpError, LinkCaller, SupplierLinkPayload, SupplierLinkUpdate,
}
use vinc_api.Users.Links.Routes.{
  create_supplier_link, update_supplier_link, delete_supplier_link, change_route,
}
use vinc_api.Users.Links.Routes.Returned.{audited, change_route-Changed}
use vinc_api.Permissions.{UuidLib}
use vinc_api.Users.Links.Routes.Journal.{
  IsJournal, create-IsJournal, update-IsJournal, delete-IsJournal, change-IsJournal,
}

-- What a request leaves: a request that raises is rolled back.
abbrev pub left_by : {A : Type 0} → Store → (A → Store) → Result HttpError A → Store
left_by s store_of (ok a) = store_of a
left_by s store_of (err e) = s

-- One request, whatever it ends in. `t` is what the database makes of a truth test: those of the toolkit
-- raise. `onupdate` is what comes of writing the time of an update, which may be refused.
pub data LinkStep (t : Result String Bool) (s : Store) : Store → Type 0 where
  creates :
      (lib : UuidLib) (caller : LinkCaller) (now user_id : ℕ) (p : SupplierLinkPayload)
      → LinkStep t s
          (left_by s (λ x. x.1) (create_supplier_link lib caller (a_database t) now user_id p s))
  updates :
      (lib : UuidLib) (caller : LinkCaller) (onupdate : Result String ℕ) (user_id supplier_id : ℕ)
      (p : SupplierLinkUpdate)
      → LinkStep t s (
          left_by s
            (λ x. x.1)
            (update_supplier_link lib caller (a_database t) onupdate user_id supplier_id p s))
  deletes :
      (lib : UuidLib) (caller : LinkCaller) (user_id supplier_id : ℕ)
      → LinkStep t s (
          left_by s (λ x. x) (delete_supplier_link lib caller (a_database t) user_id supplier_id s))
  changes :
      (lib : UuidLib) (caller : LinkCaller) (roles : List String)
      (permitted : User → ℕ → Store → Bool) (k : LinkType) (c : Change) (now user_id target_id : ℕ)
      (reason : Option String)
      → c.event_type ≢ EventType.deleted
      → LinkStep t s (
          left_by s
            (λ x. x)
            (change_route lib caller
              (a_database t)
              roles
              permitted
              k
              c
              now
              user_id
              target_id
              reason
              s))

pub data LinkRun (t : Result String Bool) (s : Store) : Store → Type 0 where
  nothing : LinkRun t s s
  then_one : {s' s'' : Store} → LinkRun t s s' → LinkStep t s' s'' → LinkRun t s s''

-- A request that raises keeps what the tables had.
left_by-keeps :
    {A : Type 0} (P : Store → Type 0) (s : Store) (store_of : A → Store) (r : Result HttpError A)
    → P s
    → ((a : A) → r ≡ ok a → P (store_of a))
    → P (left_by s store_of r)
left_by-keeps P s store_of (ok a) h f = f a refl
left_by-keeps P s store_of (err e) h f = h

module _ (t : Result String Bool) where
  -- Whether an event is logged hangs on the database being there, not on its truth value.
  same_create :
      (lib : UuidLib) (caller : LinkCaller) (now user_id : ℕ) (p : SupplierLinkPayload) (s : Store)
      → create_supplier_link lib caller (a_database t) now user_id p s
        ≡ create_supplier_link lib caller audited now user_id p s
  unfolding create_supplier_link
  same_create lib caller now user_id p s = refl

  same_update :
      (lib : UuidLib) (caller : LinkCaller) (onupdate : Result String ℕ) (user_id supplier_id : ℕ)
      (p : SupplierLinkUpdate) (s : Store)
      → update_supplier_link lib caller (a_database t) onupdate user_id supplier_id p s
        ≡ update_supplier_link lib caller audited onupdate user_id supplier_id p s
  unfolding update_supplier_link
  same_update lib caller onupdate user_id supplier_id p s = refl

  same_delete :
      (lib : UuidLib) (caller : LinkCaller) (user_id supplier_id : ℕ) (s : Store)
      → delete_supplier_link lib caller (a_database t) user_id supplier_id s
        ≡ delete_supplier_link lib caller audited user_id supplier_id s
  unfolding delete_supplier_link
  same_delete lib caller user_id supplier_id s = refl

-- A change of a status that returns was tested against a database that is true.
returned_true :
    (t : Result String Bool) (lib : UuidLib) (caller : LinkCaller) (roles : List String)
    (permitted : User → ℕ → Store → Bool) (k : LinkType) (c : Change) (now user_id target_id : ℕ)
    (reason : Option String) (s s' : Store)
    → t ≢ ok false
    → change_route lib caller (a_database t) roles permitted k c now user_id target_id reason s
      ≡ ok s'
    → change_route lib caller audited roles permitted k c now user_id target_id reason s ≡ ok s'
unfolding change_route
returned_true (ok true) lib caller roles permitted k c now u i reason s s' fair h = h
returned_true (ok false) lib caller roles permitted k c now u i reason s s' fair h =
    absurd (fair refl)
returned_true (err m) lib caller roles permitted k c now u i reason s s' fair h =
    absurd (ground arith)

module _ (t : Result String Bool) (fair : t ≢ ok false) where
  LinkStep-IsJournal : {s s' : Store} → LinkStep t s s' → IsJournal s → IsJournal s'
  LinkStep-IsJournal {s} (creates lib caller now user_id p) journal =
      left_by-keeps IsJournal s _ (create_supplier_link lib caller (a_database t) now user_id p s)
        journal
        (λ x h.
          create-IsJournal s journal lib caller now user_id p x.0 x.1
            (sym (same_create t lib caller now user_id p s) ∙ h))
  LinkStep-IsJournal {s} (updates lib caller onupdate user_id supplier_id p) journal =
      left_by-keeps IsJournal s _
        (update_supplier_link lib caller (a_database t) onupdate user_id supplier_id p s) journal
        (λ x h.
          update-IsJournal s journal lib caller onupdate user_id supplier_id p x.0 x.1
            (sym (same_update t lib caller onupdate user_id supplier_id p s) ∙ h))
  LinkStep-IsJournal {s} (deletes lib caller user_id supplier_id) journal =
      left_by-keeps IsJournal s _
        (delete_supplier_link lib caller (a_database t) user_id supplier_id s) journal
        (λ s' h.
          delete-IsJournal s journal lib caller user_id supplier_id s'
            (sym (same_delete t lib caller user_id supplier_id s) ∙ h))
  LinkStep-IsJournal {s} (changes lib caller roles permitted k c now u i reason kept) journal =
      left_by-keeps IsJournal s _
        (change_route lib caller (a_database t) roles permitted k c now u i reason s) journal
        (λ s' h.
          let h' = returned_true t lib caller roles permitted k c now u i reason s s' fair h in
          let d = change_route-Changed lib caller roles permitted k c now u i reason s s' h' in
          change-IsJournal s journal now k u i d.actor reason c s' kept d.changes)

  -- While the document database is there, and its truth test raises, as that of the toolkit does, or
  -- holds: the audit log is a journal of the links. If replaying the log from no links gave the role,
  -- the status, the flag and the notes of every link of the tables, it does so after any run of
  -- requests that create, update and delete supplier's links or change the status of any links, by
  -- any callers, whether they return or raise, and so are rolled back.
  pub LinkRun-IsJournal : {s s' : Store} → LinkRun t s s' → IsJournal s → IsJournal s'
  LinkRun-IsJournal nothing journal = journal
  LinkRun-IsJournal (then_one run step) journal =
      LinkStep-IsJournal step (LinkRun-IsJournal run journal)
