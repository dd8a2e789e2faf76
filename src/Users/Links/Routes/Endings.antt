-- ===== src/Users/Links/Routes/Endings.antt =====
-- How a route that changes the status of a link may end.
use vinc_api.Base.{
  ℕ, ◌≡◌, refl, ◌⊎◌, inl, inr, String, Bool, true, false, Option, none, List, Result, ok, err,
  Result-cases, Bool-cases, ap, subst, ◌∙◌,
}
use vinc_api.Users.Model.{LinkType, User, Store}
use vinc_api.Users.Links.{Change, get_link, change_link}
use vinc_api.Users.Links.Changes.{Done, change_link_lem}
use vinc_api.Users.Links.Requests.{HttpError, http_error, LinkCaller, Mongo, truth, actor_of}
use vinc_api.Users.Links.Routes.{change_route}
use vinc_api.Permissions.{UuidLib}

module _ (lib : UuidLib) (caller : LinkCaller) (mongo : Mongo) (roles : List String)
    (permitted : User → ℕ → Store → Bool) (t : LinkType) (c : Change) (now user_id target_id : ℕ)
    (reason : Option String) (s : Store) where
  abbrev result : Result HttpError Store
  result = change_route lib caller mongo roles permitted t c now user_id target_id reason s

  -- The actor was found and may not manage the link.
  abbrev pub NotPermitted : Type 0
  NotPermitted =
      (actor : User) × (actor_of roles caller s ≡ ok actor)
      × (permitted actor target_id s ≡ false)
      × (result ≡ err (http_error 403 "Insufficient permissions"))

  -- The actor may manage the link, and the test of the document database raised.
  abbrev pub DatabaseRaised : Type 0
  DatabaseRaised =
      (actor : User) × (actor_of roles caller s ≡ ok actor)
      × (permitted actor target_id s ≡ true)
      × ((e : HttpError) × (truth mongo ≡ err e) × (result ≡ err e))

  -- The actor may manage the link, which is not there.
  abbrev pub NotFound : Type 0
  NotFound =
      (actor : User) × (actor_of roles caller s ≡ ok actor)
      × (permitted actor target_id s ≡ true)
      × (get_link t user_id target_id s ≡ none)
      × (result ≡ err (http_error 404 "Link not found"))

  -- The actor may manage the link, and it was changed and logged in the actor's name.
  abbrev pub WasChanged : Type 0
  WasChanged =
      (actor : User) × (has_audit : Bool) × (s' : Store) × (actor_of roles caller s ≡ ok actor)
      × (permitted actor target_id s ≡ true)
      × (truth mongo ≡ ok has_audit)
      × (result ≡ ok s')
      × Done now has_audit t user_id target_id actor reason c s (ok tt, s')

  -- What the handler of the status manager's exception makes of a change.
  abbrev handled : Result String (Unit {0}) × Store → Result HttpError Store
  handled o = elim o.0 [ err m ↦ err (http_error 404 m) | ok u ↦ ok o.1 ]

  permitted_result :
      (actor : User) (b : Bool)
      → actor_of roles caller s ≡ ok actor
      → permitted actor target_id s ≡ true
      → truth mongo ≡ ok b
      → result ≡ handled (change_link now b t user_id target_id actor reason c s)
  unfolding change_route
  permitted_result actor b qa qp qm = rw (change_route, qa, qp, qm) refl

  change_ends :
      (actor : User)
      → actor_of roles caller s ≡ ok actor
      → permitted actor target_id s ≡ true
      → NotPermitted ⊎ (DatabaseRaised ⊎ (NotFound ⊎ WasChanged))
  unfolding change_route
  change_ends actor qa qp = elim (Result-cases (truth mongo)) [
    | inr (e, qm) ↦ inr (inl (actor, qa, qp, (e, qm, rw (change_route, qa, qp, qm) refl)))
    | inl (b, qm) ↦
        let now_is = permitted_result actor b qa qp qm in
        elim (change_link_lem now b t user_id target_id actor reason c s) [
          | inl (q, same) ↦ inr (inr (inl (actor, qa, qp, q, now_is ∙ ap handled same)))
          | inr done ↦
              let s' = (change_link now b t user_id target_id actor reason c s).1 in
              let pair = ap (λ (a : Result String (Unit {0})). (a, s')) done.returns in
              inr (
                inr (
                  inr (
                    actor,
                    b,
                    s',
                    qa,
                    qp,
                    qm,
                    now_is ∙ ap handled pair,
                    subst (Done now b t user_id target_id actor reason c s) pair done,
                  )))
        ]
  ]

  -- A request to change the status of a link ends in one of five ways: the actor is refused; or may
  -- not manage the link, 403; or the test of the document database raises; or there is no such link,
  -- 404; or the link has the status and the flag of the change, no other link is changed, and the
  -- audit, if the database is there, has one more event in the actor's name, with what was before.
  -- Each way states its cause, and only the last writes.
  pub change_route-ends :
      ((e : HttpError) × (actor_of roles caller s ≡ err e) × (result ≡ err e))
      ⊎ (NotPermitted ⊎ (DatabaseRaised ⊎ (NotFound ⊎ WasChanged)))
  unfolding change_route
  change_route-ends = elim (Result-cases (actor_of roles caller s)) [
    | inr (e, q) ↦ inl (e, q, rw (change_route, q) refl)
    | inl (actor, q) ↦ inr (elim (Bool-cases (permitted actor target_id s)) [
      | inl p ↦ change_ends actor q p
      | inr p ↦ inl (actor, q, p, rw (change_route, q, p) refl)
    ])
  ]
