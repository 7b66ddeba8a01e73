-- ===== src/Kanban.antt =====
-- kanban_dispatch.py: firing platform runs from the cards of a Kanban board.
pub mod Card
pub mod Sweep
