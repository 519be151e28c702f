-- ===== src/Scheduler/Plays/Drain.antt =====
-- akva/driver.cpp: Run empties the queue.
