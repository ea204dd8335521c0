-- ===== src/Owners.antt =====
-- app/services/shop_owner_service.py: shop owners, their registration and who brought them in.
pub mod Register
pub mod Referred
