-- ===== src/Posts.antt =====
-- The posts service: src/rest/api/users/services/posts/posts.service.ts.
pub mod Entities
pub mod Db
pub mod Repo
pub mod Users
pub mod Keeps
pub mod Analytics
pub mod Text
pub mod Likes
pub mod Listings
pub mod Create
pub mod Comments
pub mod Engage
pub mod Owner
pub mod Collections
pub mod Reactions
pub mod Tallies
mod Tests
