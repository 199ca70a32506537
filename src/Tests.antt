-- ===== src/Tests.antt =====
-- Runs of the models on concrete inputs, and the theorems applied to them.
mod Sample
pub mod OfProtocol
mod OfDriver
mod OfDisplay
mod OfResponder
pub mod OfRuns
mod OfViewer
mod OfWindow
mod OfController
mod OfDirect
