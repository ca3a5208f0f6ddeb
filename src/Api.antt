-- ===== src/Api.antt =====
-- internal/api/api.go: the JSON API. The bodies of requests come decoded, as the decoder of
-- encoding/json gives them; net/mail's parser and SHA-256 are parameters, the record `Env`.
pub mod Requests
pub mod Post
pub mod Get
