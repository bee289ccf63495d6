-- ===== src/Thread/Load/Tests.antt =====
-- The load at a concrete input.
use zltool_kit.Thread.Load.{LoadCounter, new_counter, start_sleep, sleep_wake_up}

abbrev busy : LoadCounter
busy = sleep_wake_up 30 (start_sleep 25 (new_counter 10 3 1000))
