-- ===== src/Config/Listen.antt =====
-- The addresses on which the servers listen.
use fedbox.Prelude.{List, [], ◌∷◌, ◌++◌, Text, codes, ◌==◌, text_eq, nat_eq, if◌then◌else◌}
use fedbox.Go.Decimal.{append_uint}
use fedbox.Config.Options.{Options}

unfoldable pub ssh_listen : Options → List Text
ssh_listen o =
    if o.ssh_port == 0 then [] else (o.listen_host ++ (codes ":" ++ append_uint o.ssh_port)) ∷ []

unfoldable pub http_listen : Options → List Text
http_listen o =
    (if o.socket_path == [] then [] else o.socket_path ∷ [])
    ++ (if o.http_port == 0
        then []
        else (o.listen_host ++ (codes ":" ++ append_uint o.http_port)) ∷ [])
