-- ===== src/Authorization/Requests.antt =====
-- The request bodies of dto/request/AuthorizationDTO.ts and UpdatePolicyDTO of
-- repositories/interfaces/IPolicyRepository.ts, as they are after parsing.
use gcdr.Authorization.Data.{RiskLevel, PolicyConditions}
use gcdr.Base.{ℕ, String, List, Option}

-- CreateRoleDTO, UpdateRoleDTO, CreatePolicyDTO, UpdatePolicyDTO and AssignRoleDTO
pub record NewRole : Type 0 where
  pub key : String
  pub display_name : String
  pub description : Option String
  pub policies : List String
  pub tags : Option (List String)
  pub risk_level : RiskLevel

pub record RoleChange : Type 0 where
  pub display_name : Option String
  pub description : Option String
  pub policies : Option (List String)
  pub tags : Option (List String)
  pub risk_level : Option RiskLevel

pub record NewPolicy : Type 0 where
  pub key : String
  pub display_name : String
  pub description : Option String
  pub allow : List String
  pub deny : List String
  pub conditions : Option PolicyConditions
  pub risk_level : RiskLevel

pub record PolicyChange : Type 0 where
  pub display_name : Option String
  pub description : Option String
  pub allow : Option (List String)
  pub deny : Option (List String)
  pub conditions : Option PolicyConditions
  pub risk_level : Option RiskLevel

pub record NewAssignment : Type 0 where
  pub user_id : String
  pub role_key : String
  pub scope : String
  pub expires_at : Option ℕ
  pub reason : Option String
