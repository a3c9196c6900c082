-- ===== src/Dag.antt =====
-- app/dag.py: the tasks of a workflow definition, its validation and its topological order.
pub mod Spec
pub mod Graph
pub mod Parse
pub mod Order
pub mod Validate
pub mod Levels
pub mod Runnable
pub mod Finish
