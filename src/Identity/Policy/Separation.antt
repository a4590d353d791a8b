-- ===== src/Identity/Policy/Separation.antt =====
-- What the capability matrix of identity/policy.py keeps apart, and how its roles compare.
use dc_inventory.Prelude.{◌≡◌, true, false, ◌&&◌, not, arith}
use dc_inventory.Identity.Policy.{UserRole, Capability, has_capability, is_custody_role}

-- For every role: it does not both create and manage purchases, nor both manage and accept them;
-- it may hold equipment exactly when it operates the warehouse without administering it; and
-- whoever may assign administrators may also assign standard roles and manage users.
pub duties_separated :
    (r : UserRole)
    → (has_capability r Capability.procurement_create
          && has_capability r Capability.procurement_manage
        ≡ false)
      × (has_capability r Capability.procurement_manage
            && has_capability r Capability.procurement_accept
          ≡ false)
      × (is_custody_role r ≡ (
          has_capability r Capability.inventory_operate
          && not (has_capability r Capability.inventory_admin)))
      × (has_capability r Capability.access_assign_admin ≡ true
          → (has_capability r Capability.access_assign_standard_roles ≡ true)
            × (has_capability r Capability.access_manage_users ≡ true))
unfolding has_capability
duties_separated UserRole.engineer = ground arith
duties_separated UserRole.senior_engineer = ground arith
duties_separated UserRole.manager = ground arith
duties_separated UserRole.admin = ground arith
duties_separated UserRole.owner = ground arith
