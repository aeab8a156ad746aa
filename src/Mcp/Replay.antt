-- ===== src/Mcp/Replay.antt =====
-- Resuming a stream of events over all jobs (internal/mcp/sse.go: `replayBacklog`, which lists the
-- events after the number that the client saw last).
