-- ===== src/Tests.antt =====
-- The theorems at concrete inputs, and small runs of the model.
mod OnServer
mod OnSession
mod OnRecorder
mod OnRefusal
mod OnHeader
mod OnConversion
mod OnProtocol
mod OnDsp
mod OnBackend
mod OnWire
mod OnConnections
mod OnVolumes
mod OnLink
mod OnHang
mod OnChecks
mod OnStartup
mod OnFrontend
mod OnParser
mod OnSettings
mod OnFactory
