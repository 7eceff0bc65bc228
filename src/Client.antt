-- ===== src/Client.antt =====
-- src/client.c, by parts: the object itself, its packets, its IDs, its list of invitations, the
-- operations on an offer, the moves of a game, and logging in and out.
pub mod Object
pub mod Packets
pub mod Ids
pub mod Invites
pub mod Lists
pub mod Offers
pub mod Play
pub mod Session
pub mod Outside
pub mod Balance
pub mod Serving
