-- ===== src/Evidence.antt =====
-- packages/evidence: the judgement of the recorded evidence.
pub mod Values
pub mod Graph
pub mod Input
pub mod Candidates
pub mod AtMostOne
pub mod Conservation
mod Examples
pub mod Chain
pub mod Loading
