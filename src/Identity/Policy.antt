-- ===== src/Identity/Policy.antt =====
-- backend/app/modules/identity/policy.py and enums.py: the roles and what each may do.
pub mod Separation
use dc_inventory.Prelude.{ℕ, Bool, true, false, List, [], ◌∷◌, ◌++◌}
use dc_inventory.Prelude.Tests.{◌==◌}
use dc_inventory.Prelude.Lists.{any}

pub data UserRole : Type 0 where
  engineer senior_engineer manager admin owner : UserRole

pub data UserAccessStatus : Type 0 where
  pending approved rejected blocked : UserAccessStatus

pub data AccessRequestStatus : Type 0 where
  pending approved rejected : AccessRequestStatus

pub data Capability : Type 0 where
  catalog_read catalog_manage catalog_archive catalog_delete_unused : Capability
  inventory_read inventory_operate inventory_admin : Capability
  movement_read_own movement_read_all : Capability
  procurement_read procurement_create procurement_manage procurement_accept : Capability
  access_manage_users access_assign_standard_roles access_assign_admin : Capability

-- Members of an enumeration are compared by their position in it.
abbrev pub role_index : UserRole → ℕ
role_index UserRole.engineer = 0
role_index UserRole.senior_engineer = 1
role_index UserRole.manager = 2
role_index UserRole.admin = 3
role_index UserRole.owner = 4

abbrev pub role_eq : UserRole → UserRole → Bool
role_eq a b = role_index a == role_index b

abbrev pub status_index : UserAccessStatus → ℕ
status_index UserAccessStatus.pending = 0
status_index UserAccessStatus.approved = 1
status_index UserAccessStatus.rejected = 2
status_index UserAccessStatus.blocked = 3

abbrev pub status_eq : UserAccessStatus → UserAccessStatus → Bool
status_eq a b = status_index a == status_index b

abbrev pub capability_index : Capability → ℕ
capability_index Capability.catalog_read = 0
capability_index Capability.catalog_manage = 1
capability_index Capability.catalog_archive = 2
capability_index Capability.catalog_delete_unused = 3
capability_index Capability.inventory_read = 4
capability_index Capability.inventory_operate = 5
capability_index Capability.inventory_admin = 6
capability_index Capability.movement_read_own = 7
capability_index Capability.movement_read_all = 8
capability_index Capability.procurement_read = 9
capability_index Capability.procurement_create = 10
capability_index Capability.procurement_manage = 11
capability_index Capability.procurement_accept = 12
capability_index Capability.access_manage_users = 13
capability_index Capability.access_assign_standard_roles = 14
capability_index Capability.access_assign_admin = 15

abbrev pub engineer_capabilities : List Capability
engineer_capabilities =
    Capability.catalog_read ∷ Capability.inventory_read ∷ Capability.inventory_operate
    ∷ Capability.movement_read_own ∷ []

-- `ROLE_CAPABILITIES[role]`
unfoldable pub capabilities_for_role : UserRole → List Capability
capabilities_for_role UserRole.engineer = engineer_capabilities
capabilities_for_role UserRole.senior_engineer =
    engineer_capabilities
    ++ (Capability.catalog_manage ∷ Capability.catalog_archive ∷ Capability.catalog_delete_unused
        ∷ Capability.movement_read_all ∷ Capability.procurement_read ∷ Capability.procurement_accept
        ∷ [])
capabilities_for_role UserRole.manager =
    Capability.catalog_read ∷ Capability.inventory_read ∷ Capability.procurement_read
    ∷ Capability.procurement_manage ∷ []
capabilities_for_role UserRole.admin =
    Capability.catalog_read ∷ Capability.catalog_manage ∷ Capability.catalog_archive
    ∷ Capability.catalog_delete_unused ∷ Capability.inventory_read ∷ Capability.inventory_operate
    ∷ Capability.inventory_admin ∷ Capability.movement_read_all ∷ Capability.procurement_read
    ∷ Capability.procurement_create ∷ Capability.procurement_accept ∷ Capability.access_manage_users
    ∷ Capability.access_assign_standard_roles ∷ []
capabilities_for_role UserRole.owner =
    Capability.catalog_read ∷ Capability.catalog_manage ∷ Capability.catalog_archive
    ∷ Capability.catalog_delete_unused ∷ Capability.inventory_read ∷ Capability.inventory_operate
    ∷ Capability.inventory_admin ∷ Capability.movement_read_all ∷ Capability.procurement_read
    ∷ Capability.procurement_create ∷ Capability.procurement_accept ∷ Capability.access_manage_users
    ∷ Capability.access_assign_standard_roles ∷ Capability.access_assign_admin ∷ []

unfoldable pub has_capability : UserRole → Capability → Bool
unfolding capabilities_for_role
has_capability role c =
    any (λ d. capability_index c == capability_index d) (capabilities_for_role role)

-- `role in STANDARD_ASSIGNABLE_ROLES`
abbrev pub is_standard_assignable : UserRole → Bool
is_standard_assignable UserRole.engineer = true
is_standard_assignable UserRole.senior_engineer = true
is_standard_assignable UserRole.manager = true
is_standard_assignable UserRole.admin = false
is_standard_assignable UserRole.owner = false

-- `role in CUSTODY_ROLES`
abbrev pub is_custody_role : UserRole → Bool
is_custody_role UserRole.engineer = true
is_custody_role UserRole.senior_engineer = true
is_custody_role UserRole.manager = false
is_custody_role UserRole.admin = false
is_custody_role UserRole.owner = false
