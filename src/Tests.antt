-- ===== src/Tests.antt =====
-- Runs of the models on small inputs, and the theorems at inputs that meet their hypotheses.
mod Streams
mod Ports
mod Filters
mod Redis
mod Mysql
mod Pgsql
mod Http
mod Thrift
