-- ===== src/Execproto/Request.antt =====
-- execproto/proto.go: the request that opens an exec.
use zpinit.Base.{
  ℕ, String, Bool, true, not, ◌||◌, Option, none, some, List, [], ◌∷◌, ◌++◌, ltb, ◌==◌, length,
  if◌then◌else◌,
}
use zpinit.Base.Int.{ℤ, pos, eq_ℤ}
use zpinit.Base.Texts.{str_eq}
use zpinit.Execproto.Frame.{
  Bytes, max_payload, ReadError, Result, ok, err, read_full, put_uint32, uint32, Written, bytes,
  refused,
}

abbrev pub version : ℤ
version = pos 1

pub record Request : Type 0 where
  pub v : ℤ
  pub argv : List String
  pub user : String
  pub working_dir : String
  pub env : List String
  pub tty : Bool
  pub rows : ℕ
  pub cols : ℕ

-- encoding/json as the codec uses it: Marshal, and a strict Decode, with whether only the end of the
-- input follows the object.
pub record Json : Type 0 where
  pub marshal : Request → Bytes
  pub decode : Bytes → Option (Request × Bool)

pub data RequestError : Type 0 where
  length_unread body_unread : ReadError → RequestError
  length_out_of_range : ℕ → RequestError
  not_decoded trailing_data argv_required : RequestError
  unsupported_version : ℤ → RequestError

pub data RequestResult : Type 0 where
  accepted : Request → Bytes → RequestResult
  rejected : RequestError → RequestResult

abbrev pub no_argv : List String → Bool
no_argv [] = true
no_argv (a ∷ rest) = str_eq a ""

unfoldable pub check_request : Option (Request × Bool) → Bytes → RequestResult
check_request none rest = rejected not_decoded
check_request (some (q, clean)) rest =
    if not clean
    then rejected trailing_data
    else if not (eq_ℤ q.v version)
    then rejected (unsupported_version q.v)
    else if no_argv q.argv
    then rejected argv_required
    else accepted q rest

abbrev pub read_body : Json → Result Bytes → RequestResult
read_body json (ok buf rest) = check_request (json.decode buf) rest
read_body json (err e) = rejected (body_unread e)

abbrev pub read_length : Json → Result Bytes → RequestResult
read_length json (ok hdr rest) =
    if uint32 hdr == 0 || ltb max_payload (uint32 hdr)
    then rejected (length_out_of_range (uint32 hdr))
    else read_body json (read_full (uint32 hdr) rest)
read_length json (err e) = rejected (length_unread e)

unfoldable pub read_request : Json → Bytes → RequestResult
unfolding read_full uint32 check_request
read_request json r = read_length json (read_full 4 r)

unfoldable pub write_request : Json → Request → Written
unfolding put_uint32
write_request json q =
    let b = json.marshal q in
    if ltb max_payload (length b) then refused (length b) else bytes (put_uint32 (length b) ++ b)
