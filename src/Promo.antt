-- ===== src/Promo.antt =====
-- modules/promo_spread: the promo sender's queue, its pacing and its routes.
pub mod Queue
pub mod Safety
pub mod Worker
pub mod Posting
pub mod Routes
pub mod Refs
pub mod Profile
pub mod Exclusive
pub mod Catchup
