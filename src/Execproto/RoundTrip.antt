-- ===== src/Execproto/RoundTrip.antt =====
-- execproto/proto.go: what is written is read back.
use zpinit.Base.{
  ℕ, ◌^◌, ◌≤◌, ◌<◌, ◌≡◌, refl, ap, ◌∙◌, [], ◌∷◌, ◌++◌, arith, length, take, drop, length-append,
}
use zpinit.Execproto.Frame.{
  Bytes, max_payload, ok, read_full, put_uint32, uint32, Frame, read_payload, read_frame, bytes,
  refused, write_frame,
}

take-append : (p rest : Bytes) → take (length p) (p ++ rest) ≡ p
take-append [] rest = refl
take-append (x ∷ p) rest = ap (λ r. x ∷ r) (take-append p rest)

drop-append : (p rest : Bytes) → drop (length p) (p ++ rest) ≡ rest
drop-append [] rest = refl
drop-append (x ∷ p) rest = drop-append p rest

pub read_full-append : (p rest : Bytes) → read_full (length p) (p ++ rest) ≡ ok p rest
unfolding read_full
read_full-append p rest =
    ground (arith, take-append p rest, drop-append p rest, length-append p rest)

pub uint32-put_uint32 : (n : ℕ) → n < 2 ^ 32 → uint32 (put_uint32 n) ≡ n
unfolding uint32 put_uint32
uint32-put_uint32 n h = omega arith

-- the five bytes of a header
pub read_frame-header :
    (t a b c d : ℕ) (r : Bytes)
    → read_frame (t ∷ a ∷ b ∷ c ∷ d ∷ r) ≡ read_payload t (uint32 (a ∷ b ∷ c ∷ d ∷ [])) r
unfolding read_frame read_full
read_frame-header t a b c d r = ground arith

read_payload-append :
    (t : ℕ) (payload rest : Bytes)
    → length payload ≤ max_payload
    → read_payload t (length payload) (payload ++ rest)
      ≡ ok (record { type = t; payload = payload }) rest
unfolding read_payload
read_payload-append t payload rest h = ground (arith, read_full-append payload rest)

-- the bytes of a frame
abbrev pub encoded : Frame → Bytes
encoded f = f.type ∷ (put_uint32 (length f.payload) ++ f.payload)

-- A frame whose payload is within MaxPayload is written as its encoding, and read back from it, with
-- the reader left at whatever follows; a larger one is refused.
pub read_frame-write_frame :
    (f : Frame) (rest : Bytes)
    → (length f.payload ≤ max_payload
        → (write_frame f.type f.payload ≡ bytes (encoded f))
          × (read_frame (encoded f ++ rest) ≡ ok f rest))
      × (max_payload < length f.payload → write_frame f.type f.payload ≡ refused (length f.payload))
unfolding write_frame
read_frame-write_frame f rest = (
  λ h. (
    ground arith,
    unfold put_uint32 in
        (read_frame-header f.type _ _ _ _ (f.payload ++ rest)
          ∙ ap (λ n. read_payload f.type n (f.payload ++ rest))
              (uint32-put_uint32 (length f.payload) (omega arith))
          ∙ read_payload-append f.type f.payload rest h),
  ),
  λ h. ground arith,
)
