-- ===== src/Projects.antt =====
-- Projects and their members: Service is the project service, Rbac the middleware that looks at the
-- caller's role in a project, and Access the two together.
pub mod Service
pub mod Repo
pub mod Handlers
pub mod Rbac
pub mod Access
