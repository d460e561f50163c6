-- ===== src/Examples/Wires.antt =====
-- crates/wiretap-server/src/wire.rs: a sample that crosses the protocol.
