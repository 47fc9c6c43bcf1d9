-- ===== src/Limiter/Sound.antt =====
-- What is kept true of the limiter: the budget of each key, and the capacity.
pub mod States
pub mod Entries
pub mod Room
pub mod Evict
pub mod Waits
pub mod Admit
pub mod Normal
