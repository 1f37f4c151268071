-- ===== src/Plan/Total.antt =====
-- The constructor of `Plan` never fails on a reference of a closed graph.
use traversal.Graph.{Graph}
