-- ===== src/Tests.antt =====
-- The theorems at concrete pages, records, buffers and files.
mod Values
mod HeapPages
mod Vacuums
mod Trees
mod Scans
mod Splits
mod Strings
mod Buffers
mod Files
mod Tables
mod Arguments
