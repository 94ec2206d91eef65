-- ===== src/Execproto/Opening.antt =====
-- execproto/proto.go: the request that opens an exec.
use zpinit.Base.{
  ℕ, ◌≤◌, ◌<◌, ◌≡◌, refl, ap, ◌∙◌, Bool, true, false, Option, none, some, ◌++◌, arith, ltb, ◌==◌,
  length, length-take, take-append-drop, ◌||◌, if◌then◌else◌,
}
use zpinit.Base.Int.{eq_ℤ-eq}
use zpinit.Execproto.Frame.{
  Bytes, max_payload, Result, ok, err, read_full, put_uint32, uint32, bytes, refused,
}
use zpinit.Execproto.Request.{
  version, Request, Json, RequestResult, accepted, rejected, no_argv, length_out_of_range,
  check_request, read_body, read_length, read_request, write_request,
}
use zpinit.Execproto.RoundTrip.{read_full-append, uint32-put_uint32}

module _ (json : Json) where
  check_request_sound :
      (o : Option (Request × Bool)) (left : Bytes) (q : Request) (rest : Bytes)
      → check_request o left ≡ accepted q rest
      → (o ≡ some (q, true)) × (left ≡ rest) × (q.v ≡ version) × (no_argv q.argv ≡ false)
  unfolding check_request
  check_request_sound none left q rest e = absurd (cc e)
  check_request_sound (some (q', clean)) left q rest e = ground (arith, e, eq_ℤ-eq q'.v version)

  read_full_sound :
      (n : ℕ) (r buf rest : Bytes)
      → read_full n r ≡ ok buf rest
      → (r ≡ buf ++ rest) × (length buf ≡ n)
  unfolding read_full
  read_full_sound n r buf rest e = ground (arith, e, length-take n r, take-append-drop n r)

  read_body_sound :
      (x : Result Bytes) (q : Request) (rest : Bytes)
      → read_body json x ≡ accepted q rest
      → (buf : Bytes) × (x ≡ ok buf rest)
        × (json.decode buf ≡ some (q, true))
        × (q.v ≡ version)
        × (no_argv q.argv ≡ false)
  read_body_sound (ok buf left) q rest e =
      let (a, b, c, d) = check_request_sound (json.decode buf) left q rest e in
      (buf, ap (ok buf) b, a, c, d)
  read_body_sound (err x) q rest e = absurd (cc e)

  read_length_sound :
      (x : Result Bytes) (q : Request) (rest : Bytes)
      → read_length json x ≡ accepted q rest
      → (hdr : Bytes) × (left : Bytes) × (x ≡ ok hdr left)
        × (1 ≤ uint32 hdr)
        × (uint32 hdr ≤ max_payload)
        × (read_body json (read_full (uint32 hdr) left) ≡ accepted q rest)
  read_length_sound (ok hdr left) q rest e =
      let h = bounds (uint32 hdr) (read_body json (read_full (uint32 hdr) left)) e in
      (hdr, left, refl, h.0, h.1, h.2)
    where
      bounds :
          (n : ℕ) (y : RequestResult)
          → (if n == 0 || ltb max_payload n then rejected (length_out_of_range n) else y)
            ≡ accepted q rest
          → (1 ≤ n) × (n ≤ max_payload) × (y ≡ accepted q rest)
      bounds n y h = ground (arith, h)
  read_length_sound (err x) q rest e = absurd (cc e)

-- A request that is read came as four bytes of a length from 1 to MaxPayload and that many bytes more,
-- which decode to it with nothing after them; it has the version of the protocol and names a program,
-- and the reader is left at what follows.
pub read_request_sound :
    (json : Json) (r : Bytes) (q : Request) (rest : Bytes)
    → read_request json r ≡ accepted q rest
    → (hdr : Bytes) × (buf : Bytes) × (r ≡ hdr ++ (buf ++ rest))
      × (length hdr ≡ 4)
      × (length buf ≡ uint32 hdr)
      × (1 ≤ length buf)
      × (length buf ≤ max_payload)
      × (json.decode buf ≡ some (q, true))
      × (q.v ≡ version)
      × (no_argv q.argv ≡ false)
unfolding read_request
read_request_sound json r q rest e =
    let (hdr, left, eh, low, high, eb) = read_length_sound json (read_full 4 r) q rest e in
    let (buf, ef, dec, v, argv) = read_body_sound json (read_full (uint32 hdr) left) q rest eb in
    let (er, el) = read_full_sound json 4 r hdr left eh in
    let (el', en) = read_full_sound json (uint32 hdr) left buf rest ef in
    (
      hdr,
      buf,
      er ∙ ap (λ x. hdr ++ x) el',
      el,
      en,
      omega (arith, en, low),
      omega (arith, en, high),
      dec,
      v,
      argv,
    )

accepts_clean :
    (q : Request) (rest : Bytes)
    → q.v ≡ version
    → no_argv q.argv ≡ false
    → check_request (some (q, true)) rest ≡ accepted q rest
unfolding check_request
accepts_clean q rest v argv = rw v (rw argv refl)

read_request-parts :
    (json : Json) (hdr buf rest : Bytes)
    → length hdr ≡ 4
    → uint32 hdr ≡ length buf
    → 1 ≤ length buf
    → length buf ≤ max_payload
    → read_request json (hdr ++ (buf ++ rest)) ≡ check_request (json.decode buf) rest
unfolding read_request
read_request-parts json hdr buf rest el en low high =
    rw⁻¹ el
      (rw (read_full-append hdr (buf ++ rest)) (ground (arith, en, read_full-append buf rest)))

-- An exec's opening request whose JSON decodes to it and fits is written as its length and its JSON, and
-- read back if it has the version of the protocol and names a program, with the reader left at what
-- follows; a request that does not fit is refused.
pub read_request-write_request :
    (json : Json) (q : Request) (rest : Bytes)
    → let b = json.marshal q in
      (json.decode b ≡ some (q, true)
        → 1 ≤ length b
        → length b ≤ max_payload
        → (write_request json q ≡ bytes (put_uint32 (length b) ++ b))
          × (q.v ≡ version
              → no_argv q.argv ≡ false
              → read_request json (put_uint32 (length b) ++ (b ++ rest)) ≡ accepted q rest))
      × (max_payload < length b → write_request json q ≡ refused (length b))
unfolding write_request
read_request-write_request json q rest =
    let b = json.marshal q in
    (
      λ decodes low high. (
        ground arith,
        λ v argv.
            read_request-parts json (put_uint32 (length b)) b rest (unfold put_uint32 in refl)
              (uint32-put_uint32 (length b) (omega (arith, high))) low high
            ∙ ap (λ o. check_request o rest) decodes
            ∙ accepts_clean q rest v argv,
      ),
      λ h. ground arith,
    )
