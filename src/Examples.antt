-- ===== src/Examples.antt =====
-- Runs on concrete inputs: the theorems at inputs that meet their hypotheses.
mod Simulator
mod OsRuns
mod XnuRuns
mod WindowsRuns
mod MemoryInfoRuns
mod SystemRuns
mod FormatRuns
mod SharingRuns
