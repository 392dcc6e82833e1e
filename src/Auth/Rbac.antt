-- ===== src/Auth/Rbac.antt =====
-- auth/trustlist_auth/rbac.py: the role and permission framework. `Model` has the enums,
-- `Framework` the classes, `Catalogues` the declared roles; the other children prove.
pub mod Model
pub mod Framework
pub mod Catalogues
pub mod Resolve
pub mod Grants
pub mod Nesting
pub mod Construction
mod Examples
