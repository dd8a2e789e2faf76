-- ===== src/Users/Links/Routes/Unchanged.antt =====
-- What an update of a link with nothing to log has left.
use vinc_api.Base.{
  ◌≡◌, refl, String, string_eq, nat_eq, ==_sound, Bool, true, false, List, [], ◌∷◌, ◌++◌, arith,
  if◌then◌else◌,
}
use vinc_api.Users.Model.{link_type_eq, Link, event_type_eq, link_status_eq, ChangeRecord}
use vinc_api.Users.Links.Requests.{Entry, absent, null, value, update_changes, bool_same, is_nil}
use vinc_api.Users.Links.Routes.Views.{snapshot_of}

is_nil-append :
    {A : Type 0} (xs ys : List A)
    → is_nil (xs ++ ys) ≡ true
    → (is_nil xs ≡ true) × (is_nil ys ≡ true)
is_nil-append [] ys h = (refl, h)
is_nil-append (x ∷ xs) ys h = absurd cc

unless_nil : {A : Type 0} (b : Bool) (x : A) → is_nil (if b then [] else x ∷ []) ≡ true → b ≡ true
unless_nil true x h = refl
unless_nil false x h = absurd cc

bool_same_sound : (a b : Bool) → bool_same a b ≡ true → b ≡ a
bool_same_sound true b h = h
bool_same_sound false true h = absurd cc
bool_same_sound false false h = refl

no_notes :
    (n : Entry String) (c : ChangeRecord)
    → is_nil (elim n [ absent ↦ [] | _ ↦ c ∷ [] ]) ≡ true
    → n ≡ absent
no_notes absent c h = refl
no_notes null c h = absurd cc
no_notes (value t) c h = absurd cc

-- An update with nothing to log leaves what the log keeps of a link.
pub no_changes :
    (n : Entry String) (old l : Link)
    → is_nil (update_changes n old l) ≡ true
    → (n ≡ absent → l.notes ≡ old.notes)
    → snapshot_of l ≡ snapshot_of old
unfolding update_changes
no_changes n old l h notes =
    let (a, rest) = is_nil-append _ _ h in
    let (b, rest') = is_nil-append _ _ rest in
    let (c, d) = is_nil-append _ _ rest' in
    let e1 : old.role ≡ l.role = ==_sound old.role l.role (unless_nil _ _ a) in
    let e2 : old.status ≡ l.status = ==_sound old.status l.status (unless_nil _ _ b) in
    let e3 : l.is_active ≡ old.is_active =
      bool_same_sound old.is_active l.is_active (unless_nil _ _ c) in
    let e4 : l.notes ≡ old.notes = notes (no_notes n _ d) in ground arith
