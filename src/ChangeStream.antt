-- ===== src/ChangeStream.antt =====
-- The package changestream (cdc/changestream): the server that fans events out to its clients, and the
-- websocket client of the API.
pub mod Server
pub mod Client
