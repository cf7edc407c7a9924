-- ===== src/Events/UseCase.antt =====
-- application/event/usecase/events.go and application/eventparticipation/usecase/participation.go,
-- with ValidMediaURL of shared/validator.
pub mod Media
pub mod Build
pub mod Commands
