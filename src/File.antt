-- ===== src/File.antt =====
-- User files: the folder tree of each user and its recycle bin (internal/service/user_file.go).
pub mod Table
pub mod Recycle
pub mod Edit
pub mod Copy
pub mod Climb
