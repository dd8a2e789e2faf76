-- ===== src/Users/Samples.antt =====
-- Rows of the tables of users, customers and links, for the runs. A text of an id has as many letters
-- as the id says.
use Prim.Native.String.{count}
use Prim.Native.String as S
use vinc_api.Permissions.{UuidLib}
use vinc_api.Base.{zero, suc, ℕ, String, true, none, some, [], ◌∷◌}
use vinc_api.Users.Model.{
  LinkType, LinkStatus, Link, UserStatus, User, Customer, CustomerAddress, Store,
}

abbrev pub link : Link
link = record {
  link_type = LinkType.customer;
  user_id = 1;
  target_id = 50;
  role = "buyer";
  status = LinkStatus.active;
  is_active = true;
  notes = none;
  updated_at = 1;
}

abbrev pub helper : User
helper = record {
  id = 9;
  email = "h@s.it";
  name = none;
  role = "supplier_admin";
  status = UserStatus.active;
  auth_provider = "keycloak";
  kc_user_id = some "kc9";
  supplier_id = some 4;
}

abbrev pub buyer : User
buyer = record helper {
  id = 1;
  email = "b@s.it";
  role = "reseller";
  kc_user_id = some "kc1";
  supplier_id = none;
}

abbrev pub shop_customer : ℕ → String → Customer
shop_customer i erp = record {
  id = i;
  erp_customer_id = erp;
  supplier_id = 4;
  name = none;
  is_active = true;
}

abbrev pub depot : ℕ → ℕ → String → CustomerAddress
depot i owner erp = record {
  id = i;
  erp_address_id = "A";
  erp_customer_id = erp;
  customer_id = owner;
  label = none;
  is_active = true;
}

abbrev pub store : Store
store = record {
  users = buyer ∷ helper ∷ [];
  suppliers = record { id = 4; name = "S" } ∷ [];
  links = link ∷ [];
  customers = shop_customer 50 "C50" ∷ shop_customer 51 "C51" ∷ [];
  addresses = depot 60 50 "C50" ∷ depot 61 51 "C51" ∷ [];
  events = [];
}

abbrev pub id_text : ℕ → String
id_text zero = ""
id_text (suc n) = S.◌++◌ "i" (id_text n)

abbrev pub lib : UuidLib
lib = record { parse = λ t. some (count t); str = id_text }
