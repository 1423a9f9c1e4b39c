-- ===== src/Hwpx/Content.antt =====
-- The body of build_plan_hwpx.py: the calls, chapter by chapter.
pub mod Front
pub mod Overview
pub mod Premises
pub mod Architecture
pub mod Users
pub mod DataModel
pub mod Communication
pub mod Safety
pub mod Portal
pub mod Agent
pub mod Api
pub mod Security
pub mod Operation
pub mod Roadmap
pub mod Licences
pub mod Conclusion
use rpi_io_t_server_project.Base.{List, ◌++◌}
use rpi_io_t_server_project.Hwpx.Call.{Call}
use rpi_io_t_server_project.Hwpx.Content.Front.{front}
use rpi_io_t_server_project.Hwpx.Content.Overview.{overview}
use rpi_io_t_server_project.Hwpx.Content.Premises.{premises}
use rpi_io_t_server_project.Hwpx.Content.Architecture.{architecture_1, architecture_2}
use rpi_io_t_server_project.Hwpx.Content.Users.{users}
use rpi_io_t_server_project.Hwpx.Content.DataModel.{data_model_1, data_model_2}
use rpi_io_t_server_project.Hwpx.Content.Communication.{communication}
use rpi_io_t_server_project.Hwpx.Content.Safety.{safety}
use rpi_io_t_server_project.Hwpx.Content.Portal.{portal}
use rpi_io_t_server_project.Hwpx.Content.Agent.{agent}
use rpi_io_t_server_project.Hwpx.Content.Api.{api}
use rpi_io_t_server_project.Hwpx.Content.Security.{security}
use rpi_io_t_server_project.Hwpx.Content.Operation.{operation}
use rpi_io_t_server_project.Hwpx.Content.Roadmap.{roadmap}
use rpi_io_t_server_project.Hwpx.Content.Licences.{licences}
use rpi_io_t_server_project.Hwpx.Content.Conclusion.{conclusion}

unfoldable pub document : List Call
document =
    front ++ overview ++ premises ++ architecture_1 ++ architecture_2 ++ users ++ data_model_1
    ++ data_model_2 ++ communication ++ safety ++ portal ++ agent ++ api ++ security ++ operation
    ++ roadmap ++ licences ++ conclusion
