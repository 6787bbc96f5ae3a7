-- ===== src/HttpConn/Reply/Room.antt =====
-- addResponse stays within the buffer, and appends a text that fits.
use reactor_server.Prelude.{
  ℕ, zero, suc, ◌+◌, ◌-◌, ◌≤◌, ◌<◌, ◌≡◌, refl, ap, ◌∙◌, true, false, [], ◌∷◌, ◌++◌, append_assoc,
  arith, length, length-append, length-take, take, drop, take-front, take_whole, leb, Returns,
  returns, Returns-bind, Returns-if,
}
use reactor_server.Prelude.Bytes.{Bytes}
use reactor_server.Prelude.CString.{write_at_lem, length-written}
use reactor_server.HttpConn.{HttpConn, write_buffer_size}
use reactor_server.HttpConn.Reply.{print_to, add_response}

-- There is room for a 0 behind what was written, and no write leaves the buffer.
pub record HasRoom (c : HttpConn) : Type 0 where
  pub size : length c.write_buf ≡ write_buffer_size
  pub below : c.write_idx < write_buffer_size

module _ (buf : Bytes) (i : ℕ) (text : Bytes) where
  -- What a call of vsnprintf leaves in the buffer.
  print_to-Returns :
      (size : ℕ)
      → i + size < length buf
      → Returns (λ d. length d ≡ length buf) (print_to buf i size text)
  unfolding print_to
  print_to-Returns zero h = returns refl
  print_to-Returns (suc size) h =
      let cut = take size text ++ 0 ∷ [] in
      let fits : i + length cut ≤ length buf =
        omega (arith, length-append (take size text) (0 ∷ []), length-take size text) in
      rw (write_at_lem buf i cut fits) (returns (length-written buf i cut fits))

  print_to-fits :
      (size : ℕ)
      → i + size < length buf
      → length text < size
      → Returns
          (λ d. (length d ≡ length buf) × (take (i + length text) d ≡ take i buf ++ text))
          (print_to buf i size text)
  unfolding print_to
  print_to-fits zero h f = absurd (omega arith)
  print_to-fits (suc size) h f =
      let cut = text ++ 0 ∷ [] in
      let whole : take size text ++ 0 ∷ [] ≡ cut = rw (take_whole size text (omega arith)) in
      let fits : i + length cut ≤ length buf = omega (arith, length-append text (0 ∷ [])) in
      let rest = drop (i + length cut) buf in
      let front : take i buf ++ (cut ++ rest) ≡ (take i buf ++ text) ++ 0 ∷ rest =
        simp append_assoc in
      let all =
        take-front (i + length text) (take i buf ++ text) (0 ∷ rest)
          (omega (arith, length-append (take i buf) text, length-take i buf)) in
      rw (whole, write_at_lem buf i cut fits)
        (returns (length-written buf i cut fits, ap (take (i + length text)) front ∙ all))

-- What addResponse leaves of the connection: all but the buffer and its index.
abbrev pub Only : HttpConn → HttpConn → Type 0
Only c d = d ≡ record c { write_buf = d.write_buf; write_idx = d.write_idx }

-- addResponse on a buffer with room writes nothing out of it.
pub add_response-HasRoom :
    (c : HttpConn) (text : Bytes)
    → HasRoom c
    → Returns (λ r. HasRoom r.0 × Only c r.0) (add_response c text)
unfolding add_response
add_response-HasRoom c text h =
    let i = c.write_idx in
    let room = write_buffer_size - 1 - i in
    Returns-if (leb write_buffer_size i) (λ full. absurd (ground (arith, h.below, full)))
      (λ free.
        Returns-bind (print_to-Returns c.write_buf i text room (omega (arith, h.size, h.below)))
          (λ buf same.
            Returns-if (leb room (length text))
              (λ long. returns (record { size = same ∙ h.size; below = h.below }, refl))
              (λ short. returns (record { size = same ∙ h.size; below = ground arith }, refl))))

-- A text in the buffer, of a connection that is else `c`.
pub record Holds (c : HttpConn) (text : Bytes) (d : HttpConn) : Type 0 where
  pub size : length d.write_buf ≡ write_buffer_size
  pub idx_is : d.write_idx ≡ length text
  pub text_is : take d.write_idx d.write_buf ≡ text
  pub only : Only c d

-- A text that fits is appended.
pub add_response-Holds :
    (c d : HttpConn) (text more : Bytes)
    → Holds c text d
    → length text + length more < write_buffer_size - 1
    → Returns (λ r. Holds c (text ++ more) r.0 × (r.1 ≡ true)) (add_response d more)
unfolding add_response
add_response-Holds c d text more h f =
    let i = d.write_idx in
    let room = write_buffer_size - 1 - i in
    let free : leb write_buffer_size i ≡ false = ground (arith, h.idx_is) in
    let short : leb room (length more) ≡ false = ground (arith, h.idx_is) in
    rw free (
      Returns-bind
        (print_to-fits d.write_buf i more room (omega (arith, h.size, h.idx_is))
          (omega (arith, h.idx_is)))
        (λ buf s. rw short (
          returns (
            record {
              size = s.0 ∙ h.size;
              idx_is = omega (arith, h.idx_is, length-append text more);
              text_is = s.1 ∙ ap (λ t. t ++ more) h.text_is;
              only =
                  ap
                    (λ (e : HttpConn). record e {
                      write_buf = buf;
                      write_idx = d.write_idx + length more;
                    })
                    h.only;
            },
            refl,
          ))))
