-- ===== src/Users/Model.antt =====
-- modules/users/models.py: the rows of the tables with the columns that the code reads or writes, and
-- modules/users/link_audit.py: the events that are logged.
use vinc_api.Base.{ℕ, String, Bool, Option, List, Eq}

pub data LinkType : Type 0 where
  supplier customer address : LinkType

unfoldable pub LinkType-discrete : Discrete LinkType
LinkType-discrete = hlevel

instance unfoldable pub link_type_eq : Eq LinkType
unfolding LinkType-discrete
link_type_eq = record { dec = LinkType-discrete }

pub data LinkStatus : Type 0 where
  pending active suspended revoked : LinkStatus

unfoldable pub LinkStatus-discrete : Discrete LinkStatus
LinkStatus-discrete = hlevel

instance unfoldable pub link_status_eq : Eq LinkStatus
unfolding LinkStatus-discrete
link_status_eq = record { dec = LinkStatus-discrete }

-- A row of UserSupplierLink, UserCustomerLink or UserAddressLink.
pub record Link : Type 0 where
  pub link_type : LinkType
  pub user_id : ℕ
  pub target_id : ℕ
  pub role : String
  pub status : LinkStatus
  pub is_active : Bool
  pub notes : Option String
  pub updated_at : ℕ

pub data UserStatus : Type 0 where
  invited active disabled : UserStatus

unfoldable pub UserStatus-discrete : Discrete UserStatus
UserStatus-discrete = hlevel

instance unfoldable pub user_status_eq : Eq UserStatus
unfolding UserStatus-discrete
user_status_eq = record { dec = UserStatus-discrete }

pub record User : Type 0 where
  pub id : ℕ
  pub email : String
  pub name : Option String
  pub role : String
  pub status : UserStatus
  pub auth_provider : String
  pub kc_user_id : Option String
  pub supplier_id : Option ℕ

pub record Supplier : Type 0 where
  pub id : ℕ
  pub name : String

pub record Customer : Type 0 where
  pub id : ℕ
  pub erp_customer_id : String
  pub supplier_id : ℕ
  pub name : Option String
  pub is_active : Bool

pub record CustomerAddress : Type 0 where
  pub id : ℕ
  pub erp_address_id : String
  pub erp_customer_id : String
  pub customer_id : ℕ
  pub label : Option String
  pub is_active : Bool

pub data EventType : Type 0 where
  created updated activated deactivated suspended revoked approved rejected deleted : EventType

unfoldable pub EventType-discrete : Discrete EventType
EventType-discrete = hlevel

instance unfoldable pub event_type_eq : Eq EventType
unfolding EventType-discrete
event_type_eq = record { dec = EventType-discrete }

-- One entry of `changes`: the field with its value before and after.
pub data ChangeRecord : Type 0 where
  role : String → String → ChangeRecord
  status : LinkStatus → LinkStatus → ChangeRecord
  is_active : Bool → Bool → ChangeRecord
  notes : Option String → Option String → ChangeRecord

-- One call of `log_event`: who did what to which link, the snapshot and the changes; the name of
-- the target and the address of the client are left out.
pub record AuditEvent : Type 0 where
  pub link_type : LinkType
  pub event_type : EventType
  pub user_id : ℕ
  pub target_id : ℕ
  pub actor_id : ℕ
  pub actor_role : String
  pub snapshot : Link
  pub changes : List ChangeRecord
  pub reason : Option String

-- The tables, and the events that were logged.
pub record Store : Type 0 where
  pub users : List User
  pub suppliers : List Supplier
  pub links : List Link
  pub customers : List Customer
  pub addresses : List CustomerAddress
  pub events : List AuditEvent
