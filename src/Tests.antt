-- ===== src/Tests.antt =====
-- Concrete inputs for the theorems: a JSON library, a server with topics and clients, and requests.
pub mod Documents
pub mod States
pub mod Requests
pub mod Runs
pub mod Clients
pub mod Wire
pub mod CommandLines
pub mod Conversations
pub mod Listings
pub mod Programs
pub mod Totality
pub mod Services
pub mod Origins
