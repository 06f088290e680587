-- ===== src/ServerApp/Run/Handled.antt =====
-- No run of a server meets a fault.
use cplusplus_projects.ServerApp.State.{ServerApp}
use cplusplus_projects.ServerApp.Run.Consistent.{Consistent}
