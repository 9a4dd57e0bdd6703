-- ===== src/Tenancy.antt =====
-- Organizations and who may act for them: the rows of prisma/schema.prisma (OrganizationMember)
-- and the requests that src/common/guards read, with the modules that use them below.
pub mod MembershipCache
pub mod Guard
pub mod RolesGuard
pub mod Organizations
pub mod Coherence
pub mod Decisions
pub mod Access
use flow_ai.Common.{ℕ, ◌≡◌, ◌↔◌, Bool, true, ◌&&◌, Option, none, some, arith, ◌==◌}
use flow_ai.Redis.{Keys}

pub data Role : Type 0 where
  super_admin owner admin project_manager finance_manager employee client : Role

pub data MemberStatus : Type 0 where
  active invited suspended : MemberStatus

pub record Member : Type 0 where
  pub organization_id : ℕ
  pub user_id : ℕ
  pub role : Role
  pub status : MemberStatus
  pub invite_email : Option ℕ
  pub invite_token : Option ℕ
  pub joined_at : Option ℕ

-- What the cache keeps of a membership; an absent membership is cached too.
pub record CachedMembership : Type 0 where
  pub role : Role
  pub membership_id : ℕ
  pub status : MemberStatus

-- `membership:${orgId}:${userId}`
pub record MembershipKey : Type 0 where
  pub org : ℕ
  pub user : ℕ

abbrev pub same_key : MembershipKey → MembershipKey → Bool
same_key j k = j.org == k.org && j.user == k.user

pub same_key_iff : (j k : MembershipKey) → (same_key j k ≡ true) ↔ (j ≡ k)
same_key_iff j k = (λ h. ground arith, λ h. ground arith)

abbrev pub membership_keys : Keys MembershipKey
membership_keys = record { same = same_key; same_iff = same_key_iff }

-- The user that JwtStrategy puts on the request; TenantGuard sets the last three fields.
pub record User : Type 0 where
  pub id : ℕ
  pub is_super_admin : Bool
  pub organization_id : Option ℕ
  pub role : Option Role
  pub membership_id : Option ℕ

pub data Denial : Type 0 where
  organization_required not_a_member not_authenticated missing_role : Denial

abbrev pub is_active : MemberStatus → Bool
is_active active = true
is_active _ = Bool.false
