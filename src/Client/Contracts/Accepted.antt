-- ===== src/Client/Contracts/Accepted.antt =====
-- What the client's form lets through, the server takes.
