-- ===== src/Golang.antt =====
-- What the services use of Go and of its standard library.
pub mod Text
pub mod Float
pub mod Time
