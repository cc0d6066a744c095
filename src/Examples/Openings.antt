-- ===== src/Examples/Openings.antt =====
-- Opening a session on a port with a lower ceiling than the option.
use mango_protocol.Common.{◌≡◌, ◌↔◌, [], ◌∷◌, some, arith}
use mango_protocol.Session.Options.{SessionOptions, new_options, with_handler}
use mango_protocol.Session.Open.{Opened, open_session}
use mango_protocol.Session.Open.Fresh.{IsAllowed, IsFresh, open_session-IsFresh}
use mango_protocol.Examples.{toy_libs}

abbrev options : SessionOptions toy_libs
options =
    with_handler
      (record (new_options (record { name = 97 ∷ []; version = 49 ∷ []; role = 98 ∷ [] })) {
        max_frame_bytes = some 8192;
      })
      (99 ∷ []) 7

open_session-IsFresh_example :
    (((o : Opened toy_libs) × (open_session (some 4096) options ≡ some o))
      ↔ IsAllowed (some 4096) options)
    × ((o : Opened toy_libs)
        → open_session (some 4096) options ≡ some o
        → IsFresh (some 4096) options o)
open_session-IsFresh_example = open_session-IsFresh (some 4096) options (omega arith)
