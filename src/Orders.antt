-- ===== src/Orders.antt =====
-- app/services/order_service.py: orders, their life cycle, and the reservation of stock.
-- An `order` object of the source is loaded in the session, so it is the row of its key.
pub mod Create
pub mod Customer
pub mod Owner
pub mod Query
pub mod Reserved
pub mod Lifecycle
pub mod Reach
pub mod Owned
mod Examples
