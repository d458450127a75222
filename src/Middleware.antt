-- ===== src/Middleware.antt =====
-- middleware.go: the steps that every request passes before a handler.
use fedbox.Prelude.{Bool, [], Text, ◌==◌, text_eq, if◌then◌else◌}
use fedbox.Go.FilePath.{clean}
use fedbox.Fault.{Fault, service_unavailable}
use fedbox.Http.{Request}

-- `SetRequestHost`, for the host name of the configuration
unfoldable set_request_host : Text → Request → Request
set_request_host hostname r =
    if r.host == hostname
    then r
    else if r.forwarded_host == hostname
    then record r { host = r.forwarded_host }
    else r

-- `CleanRequestPath`: the path that the router goes by, from the one that it has so far
unfoldable clean_request_path : Text → Request → Text
unfolding clean
clean_request_path route_path r =
    clean
      (if route_path == [] then (if r.raw_path == [] then r.path else r.raw_path) else route_path)

-- `OutOfOrderMw`: an error in place of the next handler while the server shuts down or is in
-- maintenance mode
unfoldable pub out_of_order_mw {ℓ} : {A : Type ℓ} → Bool → Bool → (Fault → A) → A → A
out_of_order_mw shutting_down maintenance refuse next =
    if shutting_down
    then refuse service_unavailable
    else if maintenance
    then refuse service_unavailable
    else next
