-- ===== src/Users/Accounts/Associations.antt =====
-- modules/users/service.py: one customer of a user at a time. The body of a request is taken as well
-- typed; the session does not flush before a query, so a query does not see the links that were
-- added before the commit.
pub mod Roundtrip
use vinc_api.Base.{
  ℕ, String, string_eq, nat_eq, ◌==◌, Bool, true, false, not, ◌&&◌, ◌||◌, Option, none, some, List,
  [], ◌∷◌, ◌++◌, map, Result, ok, err, ◌>>=◌, or_raise, where_rows, update_rows, find, any, all,
  is_some, given, no_repeat, if◌then◌else◌,
}
use vinc_api.Users.Model.{User, Customer, CustomerAddress, LinkType, link_type_eq, Link, Store}
use vinc_api.Users.Links.{is_link, get_link}
use vinc_api.Users.Accounts.Lookups.{address_key, load_user_with_relations}
use vinc_api.Users.Accounts.Service.{new_link, unless_raise}
use vinc_api.Permissions.{UuidLib}

pub record Association : Type 0 where
  pub customer_id : Option String
  pub all_addresses : Bool
  pub address_ids : List String
  pub role : String

-- The texts that are ids; the loop skips the others.
unfoldable pub parse_some : UuidLib → List String → List ℕ
parse_some lib [] = []
parse_some lib (t ∷ ts) =
    let rest = parse_some lib ts in elim (lib.parse t) [ none ↦ rest | some i ↦ i ∷ rest ]

-- The addresses with the customer's number, active or not.
unfoldable pub addresses_of : Customer → Store → List CustomerAddress
unfolding where_rows
addresses_of c s = where_rows (λ a. a.erp_customer_id == c.erp_customer_id) s.addresses

-- The addresses that a request asks for.
unfoldable pub asked_addresses : UuidLib → Association → Customer → Store → List ℕ
unfolding parse_some addresses_of
asked_addresses lib p c s = elim p.all_addresses [
  | true ↦ parse_some lib (map lib.str (map address_key (addresses_of c s)))
  | false ↦ parse_some lib p.address_ids
]

-- The links to the addresses of the customer, which an update and a delete take away.
unfoldable pub is_to_address_of : ℕ → Customer → Store → Link → Bool
unfolding any addresses_of is_link
is_to_address_of user_id c s l =
    any (λ a. is_link LinkType.address user_id a.id l) (addresses_of c s)

-- What the commit requires of new links to addresses.
unfoldable pub can_link : ℕ → List ℕ → Store → Bool
unfolding no_repeat all any is_link
can_link user_id is s =
    no_repeat is
    && (all (λ i. any (λ a. a.id == i) s.addresses) is
        && all (λ i. not (any (is_link LinkType.address user_id i) s.links)) is)

abbrev pub links_to : ℕ → ℕ → String → List ℕ → List Link
links_to now user_id role is = map (λ i. new_link now LinkType.address user_id i role) is

module _ (lib : UuidLib) (now user_id : ℕ) where
  unfoldable pub add_user_customer_association : Association → Store → Result String (User × Store)
  unfolding load_user_with_relations get_link find given where_rows any asked_addresses can_link
      is_link
  add_user_customer_association p s = do
    u ← load_user_with_relations user_id s
    text ←
        or_raise "customer_id is required"
          (elim p.customer_id [ none ↦ none | some t ↦ given (some t) ])
    customer_id ← or_raise "Invalid customer_id format" (lib.parse text)
    _ ←
        unless_raise "Customer association already exists"
          (not (is_some (get_link LinkType.customer user_id customer_id s)))
    c ← or_raise "Customer not found" (find (λ c. c.id == customer_id) s.customers)
    let is =
        where_rows (λ i. not (any (is_link LinkType.address user_id i) s.links))
          (asked_addresses lib p c s)
    _ ← unless_raise "IntegrityError" (can_link user_id is s)
    ok (
      u,
      record s {
        links =
            s.links
            ++ (new_link now LinkType.customer user_id customer_id p.role
                ∷ links_to now user_id p.role is);
      },
    )

  unfoldable pub update_user_customer_association :
      ℕ → Association → Store → Result String (User × Store)
  unfolding load_user_with_relations get_link find where_rows update_rows asked_addresses
      is_to_address_of can_link is_link
  update_user_customer_association customer_id p s = do
    u ← load_user_with_relations user_id s
    l ← or_raise "Customer association not found" (get_link LinkType.customer user_id customer_id s)
    c ← or_raise "Customer not found" (find (λ c. c.id == customer_id) s.customers)
    let l' : Link = record l {
      role = p.role;
      updated_at = if p.role == l.role then l.updated_at else now;
    }
    let kept : Store = record s {
      links =
          update_rows (is_link LinkType.customer user_id customer_id) (λ x. l')
            (where_rows (λ x. not (is_to_address_of user_id c s x)) s.links);
    }
    let is = asked_addresses lib p c s
    _ ← unless_raise "IntegrityError" (can_link user_id is kept)
    ok (u, record kept { links = kept.links ++ links_to now user_id p.role is })

  unfoldable pub delete_user_customer_association : ℕ → Store → Result String Store
  unfolding load_user_with_relations get_link find where_rows is_to_address_of is_link
  delete_user_customer_association customer_id s = do
    u ← load_user_with_relations user_id s
    l ← or_raise "Customer association not found" (get_link LinkType.customer user_id customer_id s)
    let others : List Link = elim (find (λ c. c.id == customer_id) s.customers) [
      | none ↦ s.links
      | some c ↦ where_rows (λ x. not (is_to_address_of user_id c s x)) s.links
    ]
    ok (record s {
      links = where_rows (λ x. not (is_link LinkType.customer user_id customer_id x)) others;
    })
