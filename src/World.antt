-- ===== src/World.antt =====
-- The state that one request works on, and the actions over it: the tables as the SQLAlchemy
-- session sees them (`db`) and as the database has committed them (`durable`), and the objects that
-- live in the process (app/providers/manager.py caches one of each). core/errors.py is `Failure`.
mod Errors
mod State
mod Monad
pub use Errors.*
pub use State.*
pub use Monad.*
