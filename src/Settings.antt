-- ===== src/Settings.antt =====
-- library/user_settings/user_settings.c, by the groups of functions of that file, and what the
-- groups guarantee.
pub mod Handlers
pub mod Init
pub mod Change
pub mod Restore
pub mod Query
pub mod Iter
pub mod Saving
pub mod Loading
pub mod Restart
pub mod Survival
pub mod Ready
pub mod Values
pub mod Outcomes
pub mod SetGet
pub mod Safety
pub mod Loops
pub mod Calls
pub mod Abstract
pub mod RoundTrip
pub mod Defaults
pub mod Changed
