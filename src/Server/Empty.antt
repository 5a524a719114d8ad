-- ===== src/Server/Empty.antt =====
-- A submit of src/lib.rs that asks a bulk IN endpoint for no bytes.
