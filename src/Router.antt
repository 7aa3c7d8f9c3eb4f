-- ===== src/Router.antt =====
-- src/router.c and src/router.h: subscriptions, delivery and the last-value cache.
pub mod Match
pub mod Index
pub mod Lvc
pub mod State
pub mod Evolve
pub mod Remove
pub mod Subscribe
pub mod Publish
