-- ===== src/Auth/Token.antt =====
-- What a token has to have for its user to be an admin.
use mathlib.Core.List.{Memᴰ}
use coriolis_logger.Common.{
  String, true, List, [], ◌∷◌, ◌≡◌, refl, sym, ◌↔◌, inl, inr, arith, ◌==◌, eq_iff, Bool-cases,
}
use coriolis_logger.Auth.{roles_as_map, in_roles, has_admin_role}

in_roles_iff :
    (admin : List String) (name : String)
    → (in_roles name (roles_as_map admin) ≡ true) ↔ Memᴰ name admin
unfolding in_roles roles_as_map
in_roles_iff [] name = (λ h. cc, λ m. elim m [ ])
in_roles_iff (role ∷ admin) name = (
  λ h. elim (Bool-cases (role == name)) [
    | inl same ↦ Memᴰ.head (sym ((eq_iff role name).0 same))
    | inr other ↦ Memᴰ.tail ((in_roles_iff admin name).0 (rw (other, in_roles, roles_as_map) at h))
  ],
  λ m. elim m [
    | Memᴰ.head e ↦ ground (arith, eq_iff role name)
    | Memᴰ.tail m' ↦ ground (arith, (in_roles_iff admin name).1 m')
  ],
)

-- The loop over the roles of a token finds an admin role exactly when some role is both in the
-- token and in the configured list.
pub has_admin_role_iff :
    (admin names : List String)
    → (has_admin_role (roles_as_map admin) names ≡ true)
      ↔ ((name : String) × Memᴰ name names × Memᴰ name admin)
unfolding has_admin_role
has_admin_role_iff admin [] = (λ h. cc, λ (name, m, n). elim m [ ])
has_admin_role_iff admin (name ∷ names) = (
  λ h. elim (Bool-cases (in_roles name (roles_as_map admin))) [
    | inl there ↦ (name, Memᴰ.head refl, (in_roles_iff admin name).0 there)
    | inr missing ↦
        let (role, m, n) = (has_admin_role_iff admin names).0 (rw missing at h) in
        (role, Memᴰ.tail m, n)
  ],
  λ (role, m, n). elim m [
    | Memᴰ.head e ↦ ground (arith, (in_roles_iff admin role).1 n)
    | Memᴰ.tail m' ↦ ground (arith, (has_admin_role_iff admin names).1 (role, m', n))
  ],
)
