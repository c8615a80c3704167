-- ===== src/Auth/Requests.antt =====
-- apps/auth/src/auth/auth.controller.ts: `AuthController` on one request after another, each over
-- connections of its own.
use technical_assignment.Auth.Traces.{Reach, here, Reach-trans}
use technical_assignment.Auth.Traces.Growth.{IsKeyed, IsLater}
use technical_assignment.Auth.Traces.Steps.{Reach-IsLater}
use technical_assignment.Auth.Controller.Traced.{refresh-Reach, logout-Reach, logout_all-Reach}
use technical_assignment.Auth.Login.Traced.{register-Reach, login-Reach}
use technical_assignment.Auth.Password.{Host}
use technical_assignment.Auth.Db.{Db}
use technical_assignment.Auth.Sessions.{Env}
use technical_assignment.Auth.Controller.{Request, refresh, logout, logout_all}
use technical_assignment.Auth.Login.{Body, register, login}
use technical_assignment.Common.{ℕ, Option, List, [], ◌∷◌}

-- A request to one of the five routes, with what it draws.
pub data Call : Type 0 where
  registers : (body : Body) (salt : ℕ) (q : Request) → Call
  logs_in : (family salt : ℕ) (dummy : Option ℕ) (body : Body) (q : Request) → Call
  refreshes : (cookie : Option ℕ) (q : Request) → Call
  logs_out : (cookie : Option ℕ) (q : Request) → Call
  logs_out_all : (cookie : Option ℕ) (q : Request) → Call

unfoldable pub serve : Host → Env → Call → Db → Db
serve host env (registers body salt q) d = (register host body salt q d).db
serve host env (logs_in family salt dummy body q) d =
    (login host env family salt dummy body q d).handled.db
serve host env (refreshes cookie q) d = (refresh host env cookie q d).db
serve host env (logs_out cookie q) d = (logout host cookie q d).db
serve host env (logs_out_all cookie q) d = (logout_all host cookie q d).db

unfoldable pub serve_all : Host → Env → List Call → Db → Db
serve_all host env [] d = d
serve_all host env (c ∷ cs) d = serve_all host env cs (serve host env c d)

serve-Reach : (host : Host) (env : Env) (c : Call) (d : Db) → Reach host env d (serve host env c d)
unfolding serve
serve-Reach host env (registers body salt q) d = register-Reach host env body salt q d
serve-Reach host env (logs_in family salt dummy body q) d =
    login-Reach host env family salt dummy body q d
serve-Reach host env (refreshes cookie q) d = refresh-Reach host env cookie q d
serve-Reach host env (logs_out cookie q) d = logout-Reach host env cookie q d
serve-Reach host env (logs_out_all cookie q) d = logout_all-Reach host env cookie q d

serve_all-Reach :
    (host : Host) (env : Env) (cs : List Call) (d : Db) → Reach host env d (serve_all host env cs d)
unfolding serve_all
serve_all-Reach host env [] d = here
serve_all-Reach host env (c ∷ cs) d =
    Reach-trans (serve-Reach host env c d) (serve_all-Reach host env cs (serve host env c d))

-- From a database in which no two users have one id or one email and no two refresh tokens one id
-- or one hash, after any requests to the five routes, one after another and over connections that
-- may break at any statement, the same holds; every user is still at their place, with the same id,
-- email and password hash and a version that is no smaller; every refresh token is still at its
-- place, of the same user, family, hash and expiry, and revoked if it was; and the audit log is the
-- old one with entries added at its end.
pub requests_keep_books :
    (host : Host) (env : Env) (cs : List Call) (d : Db)
    → IsKeyed d
    → IsKeyed (serve_all host env cs d) × IsLater d (serve_all host env cs d)
requests_keep_books host env cs d = Reach-IsLater (serve_all-Reach host env cs d)
