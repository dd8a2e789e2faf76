-- ===== src/Users/Links/Changes.antt =====
-- What a change of a link's status does to the links and to the audit log.
use vinc_api.Base.{
  update_rows-All, find-update_rows_self, find-update_rows_other, ℕ, ◌≡◌, ◌≢◌, ◌⊎◌, refl, String,
  nat_eq, Bool, true, false, Option, none, some, [], ◌∷◌, ◌++◌, Result, ok, err, arith, All,
  find_holds, find, update_rows, Option-cases, inl, inr, if◌then◌else◌,
}
use vinc_api.Users.Model.{
  LinkType, link_type_eq, LinkStatus, Link, User, Store, AuditEvent, EventType, ChangeRecord,
}
use vinc_api.Users.Links.{
  Change, is_link, get_link, change_link, activate_link, deactivate_link, suspend_link, revoke_link,
}

-- A link is flagged active exactly when its status is active.
abbrev pub IsAligned : Link → Type 0
IsAligned l =
    (l.is_active ≡ true → l.status ≡ LinkStatus.active)
    × (l.status ≡ LinkStatus.active → l.is_active ≡ true)

abbrev pub AllAligned : Store → Type 0
AllAligned s = All IsAligned s.links

-- Another key than a link's.
abbrev pub Differs : LinkType → ℕ → ℕ → LinkType → ℕ → ℕ → Type 0
Differs t u i t' u' i' = (t ≢ t') ⊎ (u ≢ u') ⊎ (i ≢ i')

is_link_other :
    (t t' : LinkType) (u u' i i' : ℕ) (l : Link)
    → Differs t u i t' u' i'
    → is_link t u i l ≡ true
    → is_link t' u' i' l ≡ false
unfolding is_link
is_link_other t t' u u' i i' l d h = ground arith

module _ (now : ℕ) (has_audit : Bool) (t : LinkType) (user_id target_id : ℕ) (actor : User)
    (reason : Option String) where
  -- What a change has done to a link that was there: the key now finds it with the new status, every
  -- other key finds what it found, and the audit, if there is one, has one more event, with the
  -- status and the flag from before.
  pub record Done (c : Change) (s : Store) (r : Result String (Unit {0}) × Store) : Type 0 where
    pub old : Link
    pub row : Link
    pub event : AuditEvent
    pub found : get_link t user_id target_id s ≡ some old
    pub returns : r.0 ≡ ok tt
    pub finds : get_link t user_id target_id r.1 ≡ some row
    pub new_status : row.status ≡ c.status
    pub new_flag : row.is_active ≡ c.is_active
    pub same_role : row.role ≡ old.role
    pub others :
        (t' : LinkType) (u i : ℕ)
        → Differs t user_id target_id t' u i
        → get_link t' u i r.1 ≡ get_link t' u i s
    pub logs : r.1.events ≡ (if has_audit then s.events ++ (event ∷ []) else s.events)
    pub changes_logged :
        event.changes
        ≡ ChangeRecord.status old.status row.status
          ∷ ChangeRecord.is_active old.is_active row.is_active
          ∷ []
    pub snapshot_logged : event.snapshot ≡ row
    pub actor_logged : event.actor_id ≡ actor.id

  abbrev pub row_of : Change → Link → Link
  row_of c old = record old { status = c.status; is_active = c.is_active; updated_at = now }

  abbrev pub event_of : Change → Link → AuditEvent
  event_of c old = record {
    link_type = t;
    event_type = c.event_type;
    user_id = user_id;
    target_id = target_id;
    actor_id = actor.id;
    actor_role = actor.role;
    snapshot = row_of c old;
    changes =
        ChangeRecord.status old.status c.status
        ∷ ChangeRecord.is_active old.is_active c.is_active
        ∷ [];
    reason = reason;
  }

  abbrev pub changed : Change → Link → Store → Result String (Unit {0}) × Store
  changed c old s = (
    ok tt,
    record s {
      links = update_rows (is_link t user_id target_id) (λ l. row_of c old) s.links;
      events = if has_audit then s.events ++ (event_of c old ∷ []) else s.events;
    },
  )

  row_of-is_link :
      (c : Change) (old : Link)
      → is_link t user_id target_id old ≡ true
      → is_link t user_id target_id (row_of c old) ≡ true
  unfolding is_link
  row_of-is_link c old h = h

  changed-Done :
      (c : Change) (s : Store) (old : Link)
      → get_link t user_id target_id s ≡ some old
      → Done c s (changed c old s)
  changed-Done c s old q = record {
    old = old;
    row = row_of c old;
    event = event_of c old;
    found = q;
    returns = refl;
    finds =
        unfold get_link in
        find-update_rows_self (is_link t user_id target_id) (row_of c old) named s.links old q';
    new_status = refl;
    new_flag = refl;
    same_role = refl;
    others = λ t' u i d.
        unfold get_link in
        find-update_rows_other (is_link t user_id target_id) (row_of c old) (is_link t' u i)
          (is_link_other t t' user_id u target_id i (row_of c old) d named)
          (λ l e. is_link_other t t' user_id u target_id i l d e) s.links;
    logs = refl;
    changes_logged = refl;
    snapshot_logged = refl;
    actor_logged = refl;
  }
    where
      q' : find (is_link t user_id target_id) s.links ≡ some old
      q' = unfold get_link in q

      named : is_link t user_id target_id (row_of c old) ≡ true
      named = row_of-is_link c old (find_holds (is_link t user_id target_id) s.links old q')

  pub change_link-changed :
      (c : Change) (s : Store) (old : Link)
      → get_link t user_id target_id s ≡ some old
      → change_link now has_audit t user_id target_id actor reason c s ≡ changed c old s
  unfolding change_link
  change_link-changed c s old q = rw (change_link, q) refl

  -- A change of a link that is not there raises and leaves the store as it was. A link that is there
  -- gets the status and the flag of the change, under any key but its own nothing changes, and the
  -- audit gets one event with the old and the new status and flag, and the new row.
  pub change_link_lem :
      (c : Change) (s : Store)
      → ((get_link t user_id target_id s ≡ none)
          × (change_link now has_audit t user_id target_id actor reason c s
              ≡ (err "Link not found", s)))
        ⊎ Done c s (change_link now has_audit t user_id target_id actor reason c s)
  change_link_lem c s = elim (Option-cases (get_link t user_id target_id s)) [
    | inl q ↦ inl (q, unfold change_link in rw (change_link, q) refl)
    | inr (old, q) ↦ inr (rw (change_link-changed c s old q) (changed-Done c s old q))
  ]

  change_link-AllAligned :
      (c : Change) (s : Store)
      → ((c.is_active ≡ true → c.status ≡ LinkStatus.active)
          × (c.status ≡ LinkStatus.active → c.is_active ≡ true))
      → AllAligned s
      → AllAligned (change_link now has_audit t user_id target_id actor reason c s).1
  change_link-AllAligned c s aligned all = elim (Option-cases (get_link t user_id target_id s)) [
    | inl q ↦ unfold change_link in rw (change_link, q) all
    | inr (old, q) ↦
        unfold change_link in
        rw (change_link, q)
          (update_rows-All (is_link t user_id target_id) (row_of c old) IsAligned aligned s.links
            all)
  ]

  -- If every link is flagged active exactly when its status is active, this stays so when any link is
  -- activated, deactivated, suspended or revoked.
  pub links-AllAligned :
      (s : Store)
      → AllAligned s
      → AllAligned (activate_link now has_audit t user_id target_id actor reason s).1
        × AllAligned (deactivate_link now has_audit t user_id target_id actor reason s).1
        × AllAligned (suspend_link now has_audit t user_id target_id actor reason s).1
        × AllAligned (revoke_link now has_audit t user_id target_id actor reason s).1
  unfolding activate_link deactivate_link suspend_link revoke_link
  links-AllAligned s all = (
    change_link-AllAligned
        (record { event_type = EventType.activated; status = LinkStatus.active; is_active = true })
        s ((λ h. refl), (λ h. refl)) all,
    change_link-AllAligned
        (record {
          event_type = EventType.deactivated;
          status = LinkStatus.suspended;
          is_active = false;
        })
        s ((λ h. absurd cc), (λ h. absurd cc)) all,
    change_link-AllAligned
        (record {
          event_type = EventType.suspended;
          status = LinkStatus.suspended;
          is_active = false;
        })
        s ((λ h. absurd cc), (λ h. absurd cc)) all,
    change_link-AllAligned
        (record { event_type = EventType.revoked; status = LinkStatus.revoked; is_active = false })
        s ((λ h. absurd cc), (λ h. absurd cc)) all,
  )

-- A link that was revoked can be activated again: after both, the link is there and active.
pub revoked_link-activate_link :
    (now now' : ℕ) (a a' : Bool) (t : LinkType) (u i : ℕ) (actor actor' : User)
    (reason reason' : Option String) (s : Store) (old : Link)
    → get_link t u i s ≡ some old
    → let after =
        (activate_link now' a' t u i actor' reason' (revoke_link now a t u i actor reason s).1).1 in
      (l : Link) × (get_link t u i after ≡ some l) × (l.status ≡ LinkStatus.active)
unfolding activate_link revoke_link
revoked_link-activate_link now now' a a' t u i actor actor' reason reason' s old q =
    elim (change_link_lem now a t u i actor reason
      (record { event_type = EventType.revoked; status = LinkStatus.revoked; is_active = false })
      s) [
        | inl (n, _) ↦ absurd cc
        | inr d ↦
            elim (change_link_lem now' a' t u i actor' reason'
              (record {
                event_type = EventType.activated;
                status = LinkStatus.active;
                is_active = true;
              })
              (revoke_link now a t u i actor reason s).1) [
                | inl (n, _) ↦ absurd (cc d.finds)
                | inr d' ↦ (d'.row, d'.finds, d'.new_status)
              ]
      ]
