-- ===== src/Simple.antt =====
-- newGoAttend/backend: the second server, which registers students and marks their attendance by face.
pub mod Store
pub mod Clients
pub mod Number
pub mod Handler
pub mod Keys
pub mod Registration
pub mod Marks
pub mod Login
pub mod Integrity
pub mod Listing
pub mod Program
pub mod Journey
mod Tests
