-- ===== src/Desktop/Library/RoundTrip.antt =====
-- `restore` of apps/desktop/project_store.py undoes `delete`.
pub mod Checked
pub mod Deleted
pub mod Entries
pub mod Restored
pub mod Undone
