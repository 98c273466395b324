-- ===== src/Guard.antt =====
-- guard/: the group guard: its roles, lists and settings, its wars, the health of its bots, and its
-- engine.
pub mod Lists
pub mod Store
pub mod War
pub mod Health
pub mod Commands
pub mod Engine
