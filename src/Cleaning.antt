-- ===== src/Cleaning.antt =====
-- The cleaning transform and its cross-checks (python/oracle.py, python/oracle_union.py,
-- python/oracle_kpi.py, python/clean_vectorized.py): a day-file of polls becomes the list of
-- closures. A file is given as the rows that `csv.reader` yields from it.
pub mod Floats
pub mod Extract
pub mod Vectorized
pub mod Union
pub mod Kpi
mod Tests
