-- ===== src/UseCase.antt =====
-- The base of the use cases: apps/tcc/usecase/usecases/base/config.py and base_uc.py.
pub mod Access
pub mod Errors
pub mod Base
pub mod Crud
