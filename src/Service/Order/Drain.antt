-- ===== src/Service/Order/Drain.antt =====
-- The goroutine of handleInitExit gets to its end.
