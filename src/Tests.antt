-- ===== src/Tests.antt =====
-- A concrete world, and the theorems at concrete inputs.
mod Store
mod TestWorld
mod Fixtures
mod Host
mod ProfileExamples
mod SessionExamples
mod DeviceExamples
mod SettingsExamples
mod ApprovalExamples
mod ClosingExamples
mod ClockExamples
mod StoreExamples
mod StatusExamples
mod LoginExamples
mod ServeExamples
mod FetchedExamples
mod TransportExamples
mod PluginExamples
