-- ===== src/Users/Links/Routes/Journal.antt =====
-- The audit log as a journal of the links: what is logged tells the links that there are.
use vinc_api.Base.{
  ℕ, ◌≡◌, ◌≢◌, refl, sym, ap, ◌∙◌, String, string_eq, nat_eq, ◌==◌, ==_sound, ==_refl, subst, Bool,
  true, ◌&&◌, Option, none, some, List, [], ◌∷◌, ◌++◌, Result, ok, err, arith, find_holds,
  update_rows, Bool-cases, Option-cases, inl, inr, if◌then◌else◌,
}
use vinc_api.Users.Model.{
  LinkType, link_type_eq, Link, AuditEvent, EventType, event_type_eq, Store, User, link_status_eq,
}
use vinc_api.Users.Links.{is_link, get_link}
use vinc_api.Users.Links.{Change, change_link}
use vinc_api.Users.Links.Changes.{row_of, event_of, change_link-changed}
use vinc_api.Users.Links.Requests.{
  LinkCaller, SupplierLinkPayload, SupplierLinkUpdate, update_changes, is_nil, link_event,
}
use vinc_api.Users.Links.Routes.{create_supplier_link, update_supplier_link, delete_supplier_link}
use vinc_api.Users.Links.Routes.Returned.{
  audited, create_supplier_link-Created, update_supplier_link-Updated, delete_supplier_link-Deleted,
}
use vinc_api.Users.Links.Routes.Unchanged.{no_changes}
use vinc_api.Permissions.{UuidLib}
use vinc_api.Users.Links.Routes.Views.{
  LinkSnapshot, snapshot_of, View, links_view, added_view, replaced_view, deleted_view, found_view,
}

unfoldable pub concerns : AuditEvent → LinkType → ℕ → ℕ → Bool
concerns e t u i = e.link_type == t && (e.user_id == u && e.target_id == i)

-- A deletion takes the link away, and every other event puts its snapshot in place.
abbrev pub outcome : AuditEvent → Option LinkSnapshot
outcome e = if e.event_type == EventType.deleted then none else some (snapshot_of e.snapshot)

abbrev pub apply_event : AuditEvent → View → View
apply_event e m t u i = if concerns e t u i then outcome e else m t u i

-- The links that a log tells of, from those before it.
unfoldable pub replay : View → List AuditEvent → View
replay m [] = m
replay m (e ∷ es) = replay (apply_event e m) es

abbrev pub no_links : View
no_links t u i = none

-- The log tells the links of the table.
abbrev pub IsJournal : Store → Type 0
IsJournal s = (t : LinkType) (u i : ℕ) → replay no_links s.events t u i ≡ links_view s t u i

replay-snoc :
    (m : View) (es : List AuditEvent) (e : AuditEvent)
    → replay m (es ++ (e ∷ [])) ≡ apply_event e (replay m es)
unfolding replay
replay-snoc m [] e = refl
replay-snoc m (d ∷ es) e = replay-snoc (apply_event d m) es e

-- A step that logs one event, which tells what the step did to the map.
pub logged-IsJournal :
    (s s' : Store) (e : AuditEvent)
    → s'.events ≡ s.events ++ (e ∷ [])
    → ((t : LinkType) (u i : ℕ) → links_view s' t u i ≡ apply_event e (links_view s) t u i)
    → IsJournal s
    → IsJournal s'
unfolding concerns links_view
logged-IsJournal s s' e logs tells journal t u i =
    rw (logs, replay-snoc no_links s.events e, tells t u i, journal t u i) refl

-- A step that logs nothing and leaves the map.
pub silent-IsJournal :
    (s s' : Store)
    → s'.events ≡ s.events
    → ((t : LinkType) (u i : ℕ) → links_view s' t u i ≡ links_view s t u i)
    → IsJournal s
    → IsJournal s'
unfolding replay links_view
silent-IsJournal s s' logs same journal t u i = rw (logs, same t u i) (journal t u i)

-- The key of a link that was found, and of one with the same key.
named_by :
    (t : LinkType) (u i : ℕ) (s : Store) (old l : Link)
    → get_link t u i s ≡ some old
    → l.link_type ≡ old.link_type
    → l.user_id ≡ old.user_id
    → l.target_id ≡ old.target_id
    → is_link t u i l ≡ true
unfolding is_link
named_by t u i s old l found et eu ei =
    let h = find_holds (is_link t u i) s.links old (unfold get_link in found) in ground arith

raised_not_ok :
    {m : String} {s s' : Store}
    → ◌≡◌ {A = Result String (Unit {0}) × Store} (err m, s) (ok tt, s')
    → ⊥
raised_not_ok h = cc

change_link-none :
    (now : ℕ) (t : LinkType) (u i : ℕ) (actor : User) (reason : Option String) (c : Change)
    (s : Store)
    → get_link t u i s ≡ none
    → change_link now true t u i actor reason c s ≡ (err "Link not found", s)
unfolding change_link
change_link-none now t u i actor reason c s q = rw (change_link, q) refl

-- An event about the key of a link is about the other names of that key.
about_key :
    (t : LinkType) (u i : ℕ) (l : Link) (e : AuditEvent)
    → is_link t u i l ≡ true
    → e.link_type ≡ t
    → e.user_id ≡ u
    → e.target_id ≡ i
    → (t' : LinkType) (u' i' : ℕ) → concerns e t' u' i' ≡ is_link t' u' i' l
unfolding concerns is_link
about_key t u i l e named et eu ei t' u' i' = ground arith

outcome_kept :
    (e : AuditEvent) → e.event_type ≢ EventType.deleted → outcome e ≡ some (snapshot_of e.snapshot)
outcome_kept e kept = elim (Bool-cases (e.event_type == EventType.deleted)) [
  | inl y ↦ absurd (kept (==_sound e.event_type EventType.deleted y))
  | inr n ↦ rw n refl
]

module _ (s : Store) (journal : IsJournal s) where
  -- A link that was written over the one that had its key, and what was logged of it.
  rewritten-IsJournal :
      (t : LinkType) (u i : ℕ) (old l : Link) (e : AuditEvent)
      → get_link t u i s ≡ some old
      → is_link t u i l ≡ true
      → e.snapshot ≡ l
      → e.event_type ≢ EventType.deleted
      → ((t' : LinkType) (u' i' : ℕ) → concerns e t' u' i' ≡ is_link t' u' i' l)
      → IsJournal (record s {
        links = update_rows (is_link t u i) (λ r. l) s.links;
        events = s.events ++ (e ∷ []);
      })
  rewritten-IsJournal t u i old l e found named shot kept about =
      logged-IsJournal s _ e refl
        (λ t' u' i'.
          rw
            (
              replaced_view t u i s _ old l named found t' u' i',
              about t' u' i',
              outcome_kept e kept,
              shot,
            )
            refl)
        journal

  pub create-IsJournal :
      (lib : UuidLib) (caller : LinkCaller) (now user_id : ℕ) (p : SupplierLinkPayload) (l : Link)
      (s' : Store)
      → create_supplier_link lib caller audited now user_id p s ≡ ok (l, s')
      → IsJournal s'
  unfolding concerns is_link event_type_eq link_type_eq
  create-IsJournal lib caller now user_id p l s' h =
      let c = create_supplier_link-Created lib caller now user_id p s l s' h in
      let named : is_link LinkType.supplier user_id l.target_id l ≡ true =
        rw (c.kind, c.user, ==_refl user_id, ==_refl l.target_id) refl in
      subst IsJournal (sym c.writes) (
        logged-IsJournal s _ (link_event EventType.created c.actor p.reason [] l) refl
          (added_view LinkType.supplier user_id l.target_id s _ l named c.fresh) journal)

  pub delete-IsJournal :
      (lib : UuidLib) (caller : LinkCaller) (user_id supplier_id : ℕ) (s' : Store)
      → delete_supplier_link lib caller audited user_id supplier_id s ≡ ok s'
      → IsJournal s'
  unfolding concerns is_link event_type_eq
  delete-IsJournal lib caller user_id supplier_id s' h =
      let d = delete_supplier_link-Deleted lib caller user_id supplier_id s s' h in
      let named =
        named_by LinkType.supplier user_id supplier_id s d.old d.old d.found refl refl refl in
      subst IsJournal (sym d.writes) (
        logged-IsJournal s _ (link_event EventType.deleted d.actor none [] d.old) refl
          (deleted_view LinkType.supplier user_id supplier_id s _ d.old named) journal)

  -- A link that was written anew with what the log keeps of the old one.
  unlogged-IsJournal :
      (t : LinkType) (u i : ℕ) (old l : Link)
      → get_link t u i s ≡ some old
      → is_link t u i l ≡ true
      → snapshot_of l ≡ snapshot_of old
      → IsJournal (record s { links = update_rows (is_link t u i) (λ r. l) s.links })
  unlogged-IsJournal t u i old l found named same =
      silent-IsJournal s _ refl
        (λ t' u' i'. elim (Bool-cases (is_link t' u' i' l)) [
          | inl e ↦
              rw
                (
                  replaced_view t u i s s.events old l named found t' u' i',
                  found_view t u i s old l found named t' u' i' e,
                  e,
                  same,
                )
                refl
          | inr e ↦ rw (replaced_view t u i s s.events old l named found t' u' i', e) refl
        ])
        journal

  pub update-IsJournal :
      (lib : UuidLib) (caller : LinkCaller) (onupdate : Result String ℕ) (user_id supplier_id : ℕ)
      (p : SupplierLinkUpdate) (l : Link) (s' : Store)
      → update_supplier_link lib caller audited onupdate user_id supplier_id p s ≡ ok (l, s')
      → IsJournal s'
  update-IsJournal lib caller onupdate user_id supplier_id p l s' h =
      let d = update_supplier_link-Updated lib caller onupdate user_id supplier_id p s l s' h in
      let named =
        named_by LinkType.supplier user_id supplier_id s d.old l d.found d.same_kind d.same_user
          d.same_target in
      subst IsJournal (sym d.writes) (elim (Bool-cases (is_nil (update_changes p.notes d.old l))) [
        | inl e ↦ rw e (
            unlogged-IsJournal LinkType.supplier user_id supplier_id d.old l d.found named
              (no_changes p.notes d.old l e d.same_notes))
        | inr e ↦ rw e (
            rewritten-IsJournal LinkType.supplier user_id supplier_id d.old l
              (link_event EventType.updated d.actor p.reason (update_changes p.notes d.old l) l)
              d.found named refl (λ q. cc) (λ t' u' i'. unfold concerns is_link in refl))
      ])

  pub change-IsJournal :
      (now : ℕ) (t : LinkType) (u i : ℕ) (actor : User) (reason : Option String) (c : Change)
      (s' : Store)
      → c.event_type ≢ EventType.deleted
      → change_link now true t u i actor reason c s ≡ (ok tt, s')
      → IsJournal s'
  change-IsJournal now t u i actor reason c s' kept h = elim (Option-cases (get_link t u i s)) [
    | inl q ↦ absurd (raised_not_ok (sym (change_link-none now t u i actor reason c s q) ∙ h))
    | inr (old, q) ↦
        let l = row_of now true t u i actor reason c old in
        let named = named_by t u i s old l q refl refl refl in
        let writes =
          ap (λ (o : Result String (Unit {0}) × Store). o.1)
            (sym (change_link-changed now true t u i actor reason c s old q) ∙ h) in
        subst IsJournal writes (
          rewritten-IsJournal t u i old l (event_of now true t u i actor reason c old) q named refl
            kept
            (about_key t u i l (event_of now true t u i actor reason c old) named refl refl refl))
  ]
