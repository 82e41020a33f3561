-- ===== src/Customers/Data.antt =====
-- domain/entities/Customer.ts and the request bodies of dto/request/CustomerDTO.ts. The address, the
-- theme and the metadata are carried along by the code and never looked at; they are left out.
use gcdr.Base.{ℕ, String, Bool, true, Option, List}
use gcdr.Base.Records.{Event}

-- `CustomerSettings`
pub record Settings : Type 0 where
  pub timezone : String
  pub locale : String
  pub currency : String
  pub inherit_from_parent : Bool

abbrev pub default_settings : Settings
default_settings = record {
  timezone = "America/Sao_Paulo";
  locale = "pt-BR";
  currency = "BRL";
  inherit_from_parent = true;
}

-- `Customer`
pub record Customer : Type 0 where
  pub id : String
  pub tenant_id : String
  pub parent_customer_id : Option String
  pub path : String
  pub depth : ℕ
  pub name : String
  pub display_name : String
  pub code : String
  pub customer_type : String
  pub email : Option String
  pub phone : Option String
  pub settings : Settings
  pub status : String
  pub created_at : ℕ
  pub updated_at : ℕ
  pub created_by : Option String
  pub updated_by : Option String
  pub version : ℕ

-- `CreateCustomerDTO`; its schema fills in the settings that are given.
pub record CreateCustomer : Type 0 where
  pub name : String
  pub display_name : Option String
  pub code : Option String
  pub customer_type : String
  pub parent_customer_id : Option String
  pub email : Option String
  pub phone : Option String
  pub settings : Option Settings

-- `UpdateCustomerDTO`; an email or a phone can be set to null.
pub record UpdateCustomer : Type 0 where
  pub name : Option String
  pub display_name : Option String
  pub code : Option String
  pub customer_type : Option String
  pub email : Option (Option String)
  pub phone : Option (Option String)
  pub settings : Option (Settings → Settings)
  pub status : Option String

pub record CustomerDb : Type 0 where
  pub customers : List Customer
  pub events : List Event

-- The tenant and the user of a call, the clock, the id that it draws, and the order of names in the
-- collation of the database.
pub record CustomerEnv : Type 0 where
  pub tenant_id : String
  pub user_id : String
  pub now : ℕ
  pub new_id : String
  pub name_before : String → String → Bool
