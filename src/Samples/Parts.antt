-- ===== src/Samples/Parts.antt =====
-- Signal names, service files, and the frames and the request of an exec.
use zpinit.Base.{none, Bool, true, false, Option, ◌≡◌, ◌↔◌, ◌≤◌, ◌<◌, refl, some, [], ◌∷◌, ◌++◌}
use zpinit.Base.Int.{pos}
use zpinit.Config.Types.{Service}
use zpinit.Config.Defaults.{apply_service_defaults}
use zpinit.Config.Validate.Service.{validate_service}
use zpinit.Config.Validate.Accepted.{IsAccepted, validate_service_accepts}
use zpinit.Config.Validate.Minimal.{bare_service}
use zpinit.Samples.Data.{globals}
use zpinit.Execproto.Frame.{
  Bytes, max_payload, ok, Frame, read_frame, write_frame, bytes, refused, frame_stdout,
}
use zpinit.Execproto.Request.{Request, Json, accepted, read_request}
use zpinit.Execproto.RoundTrip.{encoded, read_frame-write_frame}

abbrev output : Frame
output = record { type = frame_stdout; payload = 104 ∷ 105 ∷ [] }

read_frame-write_frame_example :
    (2 ≤ max_payload
      → (write_frame frame_stdout output.payload ≡ bytes (encoded output))
        × (read_frame (encoded output ++ 9 ∷ []) ≡ ok output (9 ∷ [])))
    × (max_payload < 2 → write_frame frame_stdout output.payload ≡ refused 2)
read_frame-write_frame_example = read_frame-write_frame output (9 ∷ [])

abbrev framed : Bytes
framed = 6 ∷ 0 ∷ 0 ∷ 0 ∷ 2 ∷ 104 ∷ 105 ∷ 9 ∷ []

abbrev shell : Request
shell = record {
  v = pos 1;
  argv = "/bin/sh" ∷ [];
  user = "";
  working_dir = "";
  env = [];
  tty = false;
  rows = 0;
  cols = 0;
}

-- the encoding of a client that sends no other request
abbrev decode_one : Bytes → Option (Request × Bool)
decode_one [] = none
decode_one (b ∷ rest) = some (shell, true)

abbrev one_request : Json
one_request = record { marshal = λ q. 123 ∷ 125 ∷ []; decode = decode_one }

abbrev sent : Bytes
sent = 0 ∷ 0 ∷ 0 ∷ 2 ∷ 123 ∷ 125 ∷ 9 ∷ []

sent_is_read : read_request one_request sent ≡ accepted shell (9 ∷ [])
unfolding read_request
sent_is_read = refl

abbrev bare : Service
bare = apply_service_defaults (bare_service "30-db.toml" "db" ("/bin/db" ∷ []) true) globals false

validate_service_accepts_example : (validate_service bare ≡ []) ↔ IsAccepted bare
validate_service_accepts_example = validate_service_accepts bare
