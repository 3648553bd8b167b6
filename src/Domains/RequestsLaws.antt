-- ===== src/Domains/RequestsLaws.antt =====
-- The loop of the requests in `handle`, crates/solon-service/src/domains.rs.
