-- ===== src/Middleware.antt =====
-- internal/middleware: the HTTP middleware, a child module for each part. Each function takes the gin
-- that it runs on; `next` is what `c.Next()` runs.
pub mod Headers
pub mod TraceLogger
pub mod Timeout
pub mod Recovery
pub mod Cors
pub mod BearerAuth
pub mod RateLimit
mod Tests
