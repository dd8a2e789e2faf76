-- ===== src/Users/Links/Routes/Returned.antt =====
-- What a route on links that returned has checked and written.
use vinc_api.Base.{
  ℕ, ◌≡◌, refl, sym, ap, ◌∙◌, String, nat_eq, Bool, true, false, not, Option, none, some, List, [],
  ◌∷◌, ◌++◌, Result, ok, err, >>=-eq-ok, or_raise, arith, where_rows, update_rows, find, ◌==◌,
}
use vinc_api.Users.Model.{LinkType, LinkStatus, link_status_eq, Link, User, EventType, Store}
use vinc_api.Users.Links.{is_link, get_link, Change, change_link}
use vinc_api.Users.Links.Requests.{
  HttpError, http_error, LinkCaller, a_database, Mongo, super_roles, actor_of, guard, link_event,
  absent, valid_role, valid_status, not_revoked, SupplierLinkPayload, SupplierLinkUpdate,
  update_changes, new_notes, is_nil, logged,
}
use vinc_api.Users.Links.Routes.{
  payload_supplier, is_absent, exists, flushed, create_supplier_link, update_supplier_link,
  delete_supplier_link, change_route,
}
use vinc_api.Permissions.{UuidLib}

-- The document database is there.
abbrev pub audited : Mongo
audited = a_database (ok true)

or_raise-ok : {A : Type 0} (e : HttpError) (o : Option A) (a : A) → or_raise e o ≡ ok a → o ≡ some a
or_raise-ok e none a h = cc
or_raise-ok e (some b) a h = cc

guard-ok : (b : Bool) (e : HttpError) (u : Unit {0}) → guard b e ≡ ok u → b ≡ true
guard-ok true e u h = refl
guard-ok false e u h = cc

absent-none : {A : Type 0} (o : Option A) → is_absent o ≡ true → o ≡ none
absent-none none h = refl
absent-none (some a) h = cc

ok-pair :
    {A B : Type 0} (a c : A) (b d : B)
    → ◌≡◌ {A = Result HttpError (A × B)} (ok (a, b)) (ok (c, d))
    → (a ≡ c) × (b ≡ d)
ok-pair a c b d h = ground arith

ok-same : {A : Type 0} (a b : A) → ◌≡◌ {A = Result HttpError A} (ok a) (ok b) → b ≡ a
ok-same a b h = cc

-- What the handler of the status manager's exception lets through.
answered-ok :
    (o : Result String (Unit {0}) × Store) (s' : Store)
    → elim o.0 [ err m ↦ err (http_error 404 m) | ok u ↦ ok o.1 ] ≡ ok s'
    → o ≡ (ok tt, s')
answered-ok (err m, s) s' h = cc
answered-ok (ok u, s) s' h = ground arith

module _ (lib : UuidLib) (caller : LinkCaller) where
  -- A created link is new under its key, is appended, and is logged.
  pub record Created (user_id : ℕ) (p : SupplierLinkPayload) (s : Store) (l : Link) (s' : Store)
      : Type 0 where
    pub actor : User
    pub admitted : actor_of super_roles caller s ≡ ok actor
    pub kind : l.link_type ≡ LinkType.supplier
    pub user : l.user_id ≡ user_id
    pub fresh : get_link LinkType.supplier user_id l.target_id s ≡ none
    pub writes : s' ≡ record s {
      links = s.links ++ (l ∷ []);
      events = s.events ++ (link_event EventType.created actor p.reason [] l ∷ []);
    }

  pub create_supplier_link-Created :
      (now user_id : ℕ) (p : SupplierLinkPayload) (s : Store) (l : Link) (s' : Store)
      → create_supplier_link lib caller audited now user_id p s ≡ ok (l, s')
      → Created user_id p s l s'
  unfolding create_supplier_link
  create_supplier_link-Created now user_id p s l s' h =
      let (actor, qa, h1) = >>=-eq-ok _ _ (actor_of super_roles caller s) h in
      let (u, qu, h2) =
        >>=-eq-ok _ _
          (or_raise (http_error 404 "User not found") (find (λ u. u.id == user_id) s.users)) h1 in
      let (supplier_id, qs, h3) =
        >>=-eq-ok _ _ (payload_supplier lib caller audited p.supplier_id) h2 in
      let (x, qx, h4) =
        >>=-eq-ok _ _
          (or_raise (http_error 404 "Supplier not found")
            (find (λ x. x.id == supplier_id) s.suppliers))
          h3 in
      let (g, qg, h5) =
        >>=-eq-ok _ _ (guard (is_absent (get_link LinkType.supplier user_id supplier_id s)) exists)
          h4 in
      let (role, qr, h6) = >>=-eq-ok _ _ (valid_role p.role "viewer") h5 in
      let (status, qt, h7) =
        >>=-eq-ok _ _ (valid_status not_revoked p.status LinkStatus.active) h6 in
      let (same_link, same_store) = ok-pair _ l _ s' h7 in
      record {
        actor = actor;
        admitted = qa;
        kind = ap (λ (r : Link). r.link_type) (sym same_link);
        user = ap (λ (r : Link). r.user_id) (sym same_link);
        fresh = rw (← same_link) (
            absent-none (get_link LinkType.supplier user_id supplier_id s)
              (guard-ok _ exists g qg));
        writes =
            sym same_store
            ∙ ap
                (λ (r : Link). record s {
                  links = s.links ++ (r ∷ []);
                  events = s.events ++ (link_event EventType.created actor p.reason [] r ∷ []);
                })
                same_link;
      }

  -- An updated link is in the place of the one that had its key, whose key it has, and is logged with
  -- what has changed, if anything has.
  pub record Updated (user_id supplier_id : ℕ) (p : SupplierLinkUpdate) (s : Store) (l : Link)
      (s' : Store) : Type 0 where
    pub actor : User
    pub admitted : actor_of super_roles caller s ≡ ok actor
    pub old : Link
    pub found : get_link LinkType.supplier user_id supplier_id s ≡ some old
    pub same_kind : l.link_type ≡ old.link_type
    pub same_user : l.user_id ≡ old.user_id
    pub same_target : l.target_id ≡ old.target_id
    pub same_notes : p.notes ≡ absent → l.notes ≡ old.notes
    pub writes : s' ≡ record s {
      links = update_rows (is_link LinkType.supplier user_id supplier_id) (λ r. l) s.links;
      events =
          logged
            (not (is_nil (update_changes p.notes old l)))
            (link_event EventType.updated actor p.reason (update_changes p.notes old l) l)
            s.events;
    }

  pub update_supplier_link-Updated :
      (onupdate : Result String ℕ) (user_id supplier_id : ℕ) (p : SupplierLinkUpdate) (s : Store)
      (l : Link) (s' : Store)
      → update_supplier_link lib caller audited onupdate user_id supplier_id p s ≡ ok (l, s')
      → Updated user_id supplier_id p s l s'
  unfolding update_supplier_link
  update_supplier_link-Updated onupdate user_id supplier_id p s l s' h =
      let (actor, qa, h1) = >>=-eq-ok _ _ (actor_of super_roles caller s) h in
      let (old, qo, h2) =
        >>=-eq-ok _ _
          (or_raise (http_error 404 "Link not found")
            (get_link LinkType.supplier user_id supplier_id s))
          h1 in
      let (role, qr, h3) = >>=-eq-ok _ _ (valid_role p.role old.role) h2 in
      let (status, qt, h4) = >>=-eq-ok _ _ (valid_status (λ st. true) p.status old.status) h3 in
      let (time, qm, h5) = >>=-eq-ok _ _ (flushed onupdate) h4 in
      let (same_link, same_store) = ok-pair _ l _ s' h5 in
      record {
        actor = actor;
        admitted = qa;
        old = old;
        found = or_raise-ok _ _ old qo;
        same_kind = ap (λ (r : Link). r.link_type) (sym same_link);
        same_user = ap (λ (r : Link). r.user_id) (sym same_link);
        same_target = ap (λ (r : Link). r.target_id) (sym same_link);
        same_notes =
            λ e. ap (λ (r : Link). r.notes) (sym same_link) ∙ ap (λ n. new_notes n old.notes) e;
        writes =
            sym same_store
            ∙ ap
                (λ (r : Link).
                  let changes = update_changes p.notes old r in
                  record s {
                    links =
                        update_rows (is_link LinkType.supplier user_id supplier_id) (λ x. r)
                          s.links;
                    events =
                        logged (not (is_nil changes))
                          (link_event EventType.updated actor p.reason changes r) s.events;
                  })
                same_link;
      }

  -- A deleted link was there, and is logged as it was.
  pub record Deleted (user_id supplier_id : ℕ) (s s' : Store) : Type 0 where
    pub actor : User
    pub admitted : actor_of super_roles caller s ≡ ok actor
    pub old : Link
    pub found : get_link LinkType.supplier user_id supplier_id s ≡ some old
    pub writes : s' ≡ record s {
      links = where_rows (λ r. not (is_link LinkType.supplier user_id supplier_id r)) s.links;
      events = s.events ++ (link_event EventType.deleted actor none [] old ∷ []);
    }

  pub delete_supplier_link-Deleted :
      (user_id supplier_id : ℕ) (s s' : Store)
      → delete_supplier_link lib caller audited user_id supplier_id s ≡ ok s'
      → Deleted user_id supplier_id s s'
  unfolding delete_supplier_link
  delete_supplier_link-Deleted user_id supplier_id s s' h =
      let (actor, qa, h1) = >>=-eq-ok _ _ (actor_of super_roles caller s) h in
      let (old, qo, h2) =
        >>=-eq-ok _ _
          (or_raise (http_error 404 "Link not found")
            (get_link LinkType.supplier user_id supplier_id s))
          h1 in
      record {
        actor = actor;
        admitted = qa;
        old = old;
        found = or_raise-ok _ _ old qo;
        writes = ok-same _ s' h2;
      }

  -- A change of a status was permitted, and is what the status manager has done.
  pub record Changed (roles : List String) (permitted : User → ℕ → Store → Bool) (t : LinkType)
      (c : Change) (now user_id target_id : ℕ) (reason : Option String) (s s' : Store)
      : Type 0 where
    pub actor : User
    pub admitted : actor_of roles caller s ≡ ok actor
    pub allowed : permitted actor target_id s ≡ true
    pub changes : change_link now true t user_id target_id actor reason c s ≡ (ok tt, s')

  pub change_route-Changed :
      (roles : List String) (permitted : User → ℕ → Store → Bool) (t : LinkType) (c : Change)
      (now user_id target_id : ℕ) (reason : Option String) (s s' : Store)
      → change_route lib caller audited roles permitted t c now user_id target_id reason s ≡ ok s'
      → Changed roles permitted t c now user_id target_id reason s s'
  unfolding change_route
  change_route-Changed roles permitted t c now user_id target_id reason s s' h =
      let (actor, qa, h1) = >>=-eq-ok _ _ (actor_of roles caller s) h in
      let (g, qg, h2) =
        >>=-eq-ok _ _
          (guard (permitted actor target_id s) (http_error 403 "Insufficient permissions")) h1 in
      record {
        actor = actor;
        admitted = qa;
        allowed = guard-ok _ _ g qg;
        changes = answered-ok (change_link now true t user_id target_id actor reason c s) s' h2;
      }
