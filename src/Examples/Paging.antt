-- ===== src/Examples/Paging.antt =====
-- The theorems on page windows, on a panel of 8 columns and 16 rows with one page in RAM.
