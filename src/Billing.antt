-- ===== src/Billing.antt =====
-- What the platform is paid: app/services/payment_service.py and the services that it calls,
-- app/services/discount_service.py, app/services/subscription_service.py and
-- app/services/referral_service.py.
pub mod Discount
pub mod Subscribe
pub mod Reward
pub mod Pay
pub mod Approve
pub mod Frame
pub mod Effects
pub mod Settled
pub mod Reach
pub mod Amounts
pub mod Once
pub mod Buttons
pub mod Unpaid
pub mod Credit
pub mod Commission
pub mod Validated
pub mod Renewal
mod Examples
