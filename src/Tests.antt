-- ===== src/Tests.antt =====
-- The theorems at concrete inputs, and tests.
mod Json
mod Storage
mod Dynarray
mod FlatBuffer
mod LinkedList
mod Futex
mod Getopt
mod Monotonic
mod Pool
mod RefCount
mod Split
mod Time
