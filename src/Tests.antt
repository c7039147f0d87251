-- ===== src/Tests.antt =====
-- The theorems at concrete inputs, and small runs of the code.
mod World
mod Lists
mod NodeLists
mod Pages
mod Bytes
mod Devices
mod Words
mod Sched
mod Ports
mod Descriptors
mod Runs
mod Setup
mod Runtime
