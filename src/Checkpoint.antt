-- ===== src/Checkpoint.antt =====
-- checkpoint.py: the checkpointer and its size accounting.
pub mod SizeState
pub mod Saver
