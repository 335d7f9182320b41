-- ===== src/Conversation.antt =====
-- Client and server together: an operation of the client (client.cpp) whose request is answered by
-- `handleApproachingClient` of the server (server.cpp).
pub mod Exchanges
pub mod Sent
pub mod Together
pub mod Handled
pub mod Delivery
pub mod Programs
pub mod Listing
pub mod Asking
pub mod Sessions
pub mod Returning
pub mod Operations
pub mod Unsubscribing
