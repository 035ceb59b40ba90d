-- ===== src/Tournament.antt =====
-- src/understudy/tournament: how evidence is scored and how scores decide a tournament.
pub mod Floats
pub mod Arbiter
pub mod Scorer
