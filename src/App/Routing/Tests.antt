-- ===== src/App/Routing/Tests.antt =====
-- A path that has no handler of its own, and the short codes that are hidden.
use observable_url_shortener.App.Routing.{redirect, get, app_routes}
use observable_url_shortener.App.Routing.Shadowing.{
  path_of, hidden_codes, handler_of, dispatch_lem, probe_codes_unreachable,
}
use observable_url_shortener.Examples.Routes.{starlette}
use observable_url_shortener.Schemas.{validate_custom_code}
use observable_url_shortener.Prelude.{ok, All, codes, ◌≡◌, ◌≢◌, some, arith}

dispatch_lem_example :
    starlette.dispatch (app_routes starlette.own_paths) get (path_of (codes "abc"))
    ≡ some (handler_of (codes "abc"))
dispatch_lem_example = dispatch_lem starlette (codes "abc") (ground arith) (λ e. cc)

probe_codes_unreachable_example :
    All
      (λ code.
        (validate_custom_code (some code) ≡ ok (some code))
        × (starlette.dispatch (app_routes starlette.own_paths) get (path_of code) ≢ some redirect))
      hidden_codes
probe_codes_unreachable_example = probe_codes_unreachable starlette
