-- ===== src/Programs.antt =====
-- The programs of doc/examples: the charts that they build, and what their runs do.
pub mod Making
pub mod LaneKeeping
pub mod Gumball
pub mod InfiniteLoop
pub mod Triggers
pub mod RichMan
pub mod DigitalWatch
pub mod Motor
pub mod EthernetBox
pub mod SimpleFsm
pub mod SelfParking
pub mod SimpleOrthogonal
pub mod ComplexComposite
pub mod SimpleComposite
pub mod Pompe
pub mod GettingStarted
