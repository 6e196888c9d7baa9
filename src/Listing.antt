-- ===== src/Listing.antt =====
-- internal/application/list_notifications.go and what it stands on: reading the notifications page by
-- page.
pub mod Query
pub mod Cursors
pub mod Service
pub mod Order
pub mod Selection
pub mod Encoding
pub mod Pages
