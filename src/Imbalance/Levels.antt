-- ===== src/Imbalance/Levels.antt =====
-- The levels that a footprint bar hands to the detector.
