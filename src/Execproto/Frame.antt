-- ===== src/Execproto/Frame.antt =====
-- execproto/proto.go: frames. A reader is the list of the bytes that it will give before its end.
use zpinit.Base.{
  ℕ, zero, suc, ◌+◌, ◌*◌, ◌/◌, ◌%◌, ◌^◌, String, List, [], ◌∷◌, ◌++◌, leb, ltb, length, take, drop,
  if◌then◌else◌,
}
use zpinit.Base.Texts.{cat}
use zpinit.Base.Decimal.{itoa}

abbrev pub Bytes : Type 0
Bytes = List ℕ

abbrev pub max_payload : ℕ
max_payload = 2 ^ 20

abbrev pub frame_started : ℕ
frame_started = 1

abbrev pub frame_stdin : ℕ
frame_stdin = 2

abbrev pub frame_stdin_eof : ℕ
frame_stdin_eof = 3

abbrev pub frame_resize : ℕ
frame_resize = 4

abbrev pub frame_signal : ℕ
frame_signal = 5

abbrev pub frame_stdout : ℕ
frame_stdout = 6

abbrev pub frame_stderr : ℕ
frame_stderr = 7

abbrev pub frame_exit : ℕ
frame_exit = 8

abbrev pub frame_error : ℕ
frame_error = 9

-- FrameType.String
unfoldable pub frame_name : ℕ → String
unfolding cat
frame_name (suc zero) = "started"
frame_name (suc (suc zero)) = "stdin"
frame_name (suc (suc (suc zero))) = "stdin_eof"
frame_name (suc (suc (suc (suc zero)))) = "resize"
frame_name (suc (suc (suc (suc (suc zero))))) = "signal"
frame_name (suc (suc (suc (suc (suc (suc zero)))))) = "stdout"
frame_name (suc (suc (suc (suc (suc (suc (suc zero))))))) = "stderr"
frame_name (suc (suc (suc (suc (suc (suc (suc (suc zero)))))))) = "exit"
frame_name (suc (suc (suc (suc (suc (suc (suc (suc (suc zero))))))))) = "error"
frame_name t = cat "frame(" (cat (itoa t) ")")

pub data ReadError : Type 0 where
  -- io.EOF and io.ErrUnexpectedEOF of io.ReadFull
  eof unexpected_eof : ReadError
  too_large : ℕ → ReadError

pub data Result {ℓ} (A : Type ℓ) : Type ℓ where
  ok : A → Bytes → Result A
  err : ReadError → Result A

infixl 5 ◌>>=◌
-- the next read goes on with what this one left
abbrev pub ◌>>=◌ {ℓ κ} : {A : Type ℓ} {B : Type κ} → Result A → (A → Bytes → Result B) → Result B
ok a rest >>= f = f a rest
err e >>= f = err e

abbrev at_end : Bytes → ReadError
at_end [] = eof
at_end (b ∷ rest) = unexpected_eof

-- io.ReadFull of a buffer of n bytes
unfoldable pub read_full : ℕ → Bytes → Result Bytes
read_full n r = if leb n (length r) then ok (take n r) (drop n r) else err (at_end r)

-- binary.BigEndian.PutUint32 of uint32(n)
unfoldable pub put_uint32 : ℕ → Bytes
put_uint32 n =
    let w = n % 2 ^ 32 in (w / 2 ^ 24) ∷ (w / 2 ^ 16 % 256) ∷ (w / 2 ^ 8 % 256) ∷ (w % 256) ∷ []

-- binary.BigEndian.Uint32 of four bytes
unfoldable pub uint32 : Bytes → ℕ
uint32 (a ∷ b ∷ c ∷ d ∷ rest) = a * 2 ^ 24 + b * 2 ^ 16 + c * 2 ^ 8 + d
uint32 _ = 0

pub record Frame : Type 0 where
  pub type : ℕ
  pub payload : Bytes

abbrev first_byte : Bytes → ℕ
first_byte [] = 0
first_byte (b ∷ rest) = b

unfoldable pub read_payload : ℕ → ℕ → Bytes → Result Frame
unfolding read_full
read_payload t n r =
    if ltb max_payload n
    then err (too_large n)
    else read_full n r >>= λ payload rest. ok (record { type = t; payload = payload }) rest

unfoldable pub read_frame : Bytes → Result Frame
unfolding read_full uint32 read_payload
read_frame r =
    read_full 5 r >>= λ hdr rest. read_payload (first_byte hdr) (uint32 (drop 1 hdr)) rest

-- The bytes that go out in the single Write, or the length that is refused.
pub data Written : Type 0 where
  bytes : Bytes → Written
  refused : ℕ → Written

unfoldable pub write_frame : ℕ → Bytes → Written
unfolding put_uint32
write_frame t payload =
    if ltb max_payload (length payload)
    then refused (length payload)
    else bytes (t ∷ (put_uint32 (length payload) ++ payload))
