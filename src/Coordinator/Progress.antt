-- ===== src/Coordinator/Progress.antt =====
-- coordinator.py: no request is lost, as long as no task is cancelled before it begins and no failure
-- of a stream finds its queue full.
use plug_and_play_local_rag.Scheduler.{cancel as unschedule}
