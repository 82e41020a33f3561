-- ===== src/Base/Records.antt =====
-- `BaseEntity` of shared/types/index.ts and the events that services publish.
use gcdr.Base.{ℕ, String, Option}

-- A time is in milliseconds; the ISO texts of the source compare as these numbers do.
pub record Entity : Type 0 where
  pub id : String
  pub tenant_id : String
  pub created_at : ℕ
  pub updated_at : ℕ
  pub created_by : Option String
  pub updated_by : Option String
  pub version : ℕ

-- `eventService.publish(type, { entityId, action })`; a failure to publish is caught and logged.
pub record Event : Type 0 where
  pub event_type : String
  pub entity_id : String
  pub action : String
