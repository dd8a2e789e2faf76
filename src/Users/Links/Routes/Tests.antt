-- ===== src/Users/Links/Routes/Tests.antt =====
-- Runs of the routes on links, and their theorems at concrete data.
use vinc_api.Base.{
  Result, err, String, Bool, ◌≡◌, ◌⊎◌, refl, string_eq, nat_eq, option_eq, true, none, some, [],
  ◌∷◌, ok, lower,
}
use vinc_api.Users.Samples.{lib, helper, store}
use vinc_api.Users.Model.{
  LinkType, LinkStatus, link_type_eq, link_status_eq, EventType, Link, User, Store,
}
use vinc_api.Users.Links.{activating, can_manage_customer_link}
use vinc_api.Users.Links.Requests.{
  HttpError, LinkCaller, Entry, SupplierLinkPayload, staff_roles, actor_of, link_event,
}
use vinc_api.Users.Links.Routes.{create_supplier_link, change_route}
use vinc_api.Users.Links.Routes.Returned.{audited}
use vinc_api.Users.Links.Routes.Journal.{IsJournal, replay}
use vinc_api.Users.Links.Routes.Views.{links_view}
use vinc_api.Users.Links.Routes.Runs.{LinkRun, creates, nothing, then_one, LinkRun-IsJournal}
use vinc_api.Users.Links.Reads.{get_link_history}
use vinc_api.Users.Links.Routes.History.{told, newest_of, get_link_history-tells}
use vinc_api.Users.Links.Routes.Endings.{
  NotPermitted, DatabaseRaised, NotFound, WasChanged, change_route-ends,
}

-- A super admin and one supplier, with no links and an empty log.
abbrev root : User
root = record helper { id = 9; role = "super_admin"; kc_user_id = some "kc-root" }

abbrev fresh : Store
fresh = record store { users = root ∷ []; links = []; events = [] }

abbrev super : LinkCaller
super = record { user_role = some "super_admin"; user_sub = some "kc-root" }

abbrev payload : SupplierLinkPayload
payload = record {
  supplier_id = some "four";
  role = Entry.value "helpdesk";
  status = Entry.absent;
  is_active = none;
  notes = none;
  reason = some "new colleague";
}

abbrev made : Link
made = record {
  link_type = LinkType.supplier;
  user_id = 9;
  target_id = 4;
  role = "helpdesk";
  status = LinkStatus.active;
  is_active = true;
  notes = none;
  updated_at = 5;
}

abbrev after : Store
after = record fresh {
  links = made ∷ [];
  events = link_event EventType.created root (some "new colleague") [] made ∷ [];
}

creation : create_supplier_link lib super audited 5 9 payload fresh ≡ ok (made, after)
unfolding create_supplier_link string_eq nat_eq option_eq lower link_type_eq link_status_eq
creation = refl

fresh-IsJournal : IsJournal fresh
unfolding replay links_view
fresh-IsJournal t u i = refl

-- A database object of the toolkit, whose truth test raises.
abbrev object : Result String Bool
object = err "NotImplementedError"

creating : LinkRun object fresh after
unfolding create_supplier_link string_eq nat_eq option_eq lower link_type_eq link_status_eq
creating = then_one nothing (creates lib super 5 9 payload)

LinkRun-IsJournal_example : IsJournal after
LinkRun-IsJournal_example = LinkRun-IsJournal object (λ h. cc) creating fresh-IsJournal

abbrev staff : LinkCaller
staff = record { user_role = some "supplier_admin"; user_sub = some "kc9" }

change_route-ends_example :
    ((e : HttpError) × (actor_of staff_roles staff store ≡ err e)
      × (change_route lib staff audited staff_roles can_manage_customer_link LinkType.customer
            activating 5 1 50 none store
          ≡ err e))
    ⊎ (NotPermitted lib staff audited staff_roles can_manage_customer_link LinkType.customer
          activating 5 1 50 none store
        ⊎ (DatabaseRaised lib staff audited staff_roles can_manage_customer_link LinkType.customer
              activating 5 1 50 none store
            ⊎ (NotFound lib staff audited staff_roles can_manage_customer_link LinkType.customer
                  activating 5 1 50 none store
                ⊎ WasChanged lib staff audited staff_roles can_manage_customer_link
                    LinkType.customer activating 5 1 50 none store)))
change_route-ends_example =
    change_route-ends lib staff audited staff_roles can_manage_customer_link LinkType.customer
      activating 5 1 50 none store

get_link_history-tells_example :
    links_view after LinkType.supplier 9 4
    ≡ told (newest_of (get_link_history LinkType.supplier 9 4 100 after)) none
get_link_history-tells_example =
    get_link_history-tells after (LinkRun-IsJournal object (λ h. cc) creating fresh-IsJournal)
      LinkType.supplier 9 4 99
