-- ===== src/Authorization/Matching.antt =====
-- Scopes and permissions as texts: `scopeMatches`, `permissionMatches` and
-- `validatePermissionFormat` of services/AuthorizationService.ts.
mod Scopes
mod Permissions
mod Format
unfoldable pub use Scopes.*
unfoldable pub use Permissions.*
unfoldable pub use Format.*
