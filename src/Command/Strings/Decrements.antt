-- ===== src/Command/Strings/Decrements.antt =====
-- The amount of INCRBY and DECRBY (internal/command/command.go).
