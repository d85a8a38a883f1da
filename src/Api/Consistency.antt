-- ===== src/Api/Consistency.antt =====
-- What the routes of app/api/routes/ keep of the links between providers and provisioners.
pub mod Tables
pub mod Keys
pub mod Links
pub mod Guards
pub mod Created
pub mod Targets
pub mod Changed
pub mod Attached
pub mod Provisioners
pub mod Relocated
pub mod Platforms
pub mod Refused
pub mod Histories
