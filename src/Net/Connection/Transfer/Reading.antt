-- ===== src/Net/Connection/Transfer/Reading.antt =====
-- What handleRead hands to the server.
use reactor_server.Prelude.{List, [], ◌∷◌, ◌++◌}
use reactor_server.Prelude.Bytes.{Bytes}

abbrev pub joined : List Bytes → Bytes
joined [] = []
joined (b ∷ bs) = b ++ joined bs
