-- ===== src/Users.antt =====
-- src/users/users.service.ts
pub mod Store
pub mod Roles
pub mod Administration
pub mod Profile
