-- ===== src/Execproto/Sound.antt =====
-- execproto/proto.go: whatever is read is what its writer writes.
use zpinit.Base.{
  ℕ, ◌+◌, ◌*◌, ◌/◌, ◌%◌, ◌^◌, ◌≤◌, ◌<◌, ◌≡◌, refl, ◌∙◌, sym, [], ◌∷◌, ◌++◌, arith, length,
  length-take, take-append-drop,
}
use zpinit.Execproto.Frame.{
  Bytes, max_payload, ok, read_full, put_uint32, uint32, Frame, read_payload, read_frame,
}
use zpinit.Execproto.RoundTrip.{encoded, read_frame-header}

-- each of the numbers is a byte
abbrev pub AreBytes : Bytes → Type 0
AreBytes [] = Unit
AreBytes (b ∷ rest) = (b < 256) × AreBytes rest

put_uint32-uint32 :
    (a b c d : ℕ)
    → a < 256
    → b < 256
    → c < 256
    → d < 256
    → put_uint32 (uint32 (a ∷ b ∷ c ∷ d ∷ [])) ≡ a ∷ b ∷ c ∷ d ∷ []
unfolding put_uint32 uint32
put_uint32-uint32 a b c d ha hb hc hd =
    let n = a * 2 ^ 24 + b * 2 ^ 16 + c * 2 ^ 8 + d in
    let ea : n % 2 ^ 32 / 2 ^ 24 ≡ a = omega arith in
    let eb : n % 2 ^ 32 / 2 ^ 16 % 256 ≡ b = omega arith in
    let ec : n % 2 ^ 32 / 2 ^ 8 % 256 ≡ c = omega arith in
    let ed : n % 2 ^ 32 % 256 ≡ d = omega arith in cc (ea, eb, ec, ed)

read_payload_sound :
    (t n : ℕ) (r : Bytes) (f : Frame) (rest : Bytes)
    → read_payload t n r ≡ ok f rest
    → (f.type ≡ t) × (length f.payload ≡ n) × (n ≤ max_payload) × (r ≡ f.payload ++ rest)
unfolding read_payload read_full
read_payload_sound t n r f rest e = ground (arith, e, length-take n r, take-append-drop n r)

-- A frame that is read has a payload within MaxPayload, and the bytes that it was read from are its
-- encoding, followed by what the reader is left with.
pub read_frame_sound :
    (r : Bytes) (f : Frame) (rest : Bytes)
    → AreBytes r
    → read_frame r ≡ ok f rest
    → (length f.payload ≤ max_payload) × (r ≡ encoded f ++ rest)
read_frame_sound (t ∷ a ∷ b ∷ c ∷ d ∷ r) f rest h e =
    let (et, el, le, er) =
      read_payload_sound t (uint32 (a ∷ b ∷ c ∷ d ∷ [])) r f rest
        (sym (read_frame-header t a b c d r) ∙ e) in
    let header = put_uint32-uint32 a b c d h.1.0 h.1.1.0 h.1.1.1.0 h.1.1.1.1.0 in
    (omega (arith, el, le), rw (er, et, el, header) refl)
read_frame_sound [] f rest h e = absurd (unfold read_frame in ground (arith, e))
read_frame_sound (t ∷ []) f rest h e = absurd (unfold read_frame in ground (arith, e))
read_frame_sound (t ∷ a ∷ []) f rest h e = absurd (unfold read_frame in ground (arith, e))
read_frame_sound (t ∷ a ∷ b ∷ []) f rest h e = absurd (unfold read_frame in ground (arith, e))
read_frame_sound (t ∷ a ∷ b ∷ c ∷ []) f rest h e = absurd (unfold read_frame in ground (arith, e))
