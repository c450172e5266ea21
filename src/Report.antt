-- ===== src/Report.antt =====
-- The statistics that are summed up over the fast paths and the load balancers, and the reports
-- that are printed from them.
pub mod Table
pub mod Tallied
pub mod Gather
pub mod Exact
pub mod Classified
pub mod Json
pub mod Agree
pub mod Text
