-- ===== src/HttpConn/Transfer/Reading.antt =====
-- read fills the buffer and stays within it.
use reactor_server.Prelude.{
  ◌+◌, ◌-◌, ◌≤◌, ◌≡◌, refl, ◌∙◌, Bool, true, false, List, [], ◌∷◌, ◌++◌, arith, length, length-take,
  take, ltb, ◌==◌, ◌>>=◌, Returns, returns, Returns-if,
}
use reactor_server.Prelude.Bytes.{Bytes}
use reactor_server.Prelude.CString.{write_at, written, write_at_lem, length-written}
use reactor_server.HttpConn.{HttpConn, read_buffer_size}
use reactor_server.HttpConn.Transfer.{
  RecvResult, got, recv_again, recv_failed, recv, read_loop, read,
}

-- What was read lies in the buffer.
pub record IsBuffered (c : HttpConn) : Type 0 where
  pub size : length c.read_buf ≡ read_buffer_size
  pub within : c.read_idx ≤ read_buffer_size

module _ (c : HttpConn) (h : IsBuffered c) (chunk : Bytes)
    (f : c.read_idx + length chunk ≤ read_buffer_size) where
  -- The connection with a chunk put in.
  abbrev stored : HttpConn
  stored = record c {
    read_buf = written c.read_buf c.read_idx chunk;
    read_idx = c.read_idx + length chunk;
  }

  fits : c.read_idx + length chunk ≤ length c.read_buf
  fits = omega (arith, h.size, f)

  stored-IsBuffered : IsBuffered stored
  stored-IsBuffered = record {
    size = length-written c.read_buf c.read_idx chunk fits ∙ h.size;
    within = f;
  }

  store_chunk :
      (answers : List RecvResult)
      → (write_at c.read_buf c.read_idx chunk >>= λ buf.
          read_loop answers (record c { read_buf = buf; read_idx = c.read_idx + length chunk }))
        ≡ read_loop answers stored
  store_chunk answers = rw (write_at_lem c.read_buf c.read_idx chunk fits)

read_loop-IsBuffered :
    (answers : List RecvResult) (c : HttpConn)
    → IsBuffered c
    → Returns (λ r. IsBuffered r.0) (read_loop (answers ++ recv_again ∷ []) c)
unfolding read_loop
read_loop-IsBuffered [] c h = returns h
read_loop-IsBuffered (recv_again ∷ answers) c h = returns h
read_loop-IsBuffered (recv_failed ∷ answers) c h = returns h
read_loop-IsBuffered (got bytes ∷ answers) c h =
    let chunk = recv (read_buffer_size - c.read_idx) bytes in
    let f : c.read_idx + length chunk ≤ read_buffer_size =
      omega (arith, h.within, length-take (read_buffer_size - c.read_idx) bytes) in
    Returns-if (length chunk == 0) (λ e. returns h)
      (λ e.
        rw (store_chunk c h chunk f (answers ++ recv_again ∷ []))
          (read_loop-IsBuffered answers (stored c h chunk f) (stored-IsBuffered c h chunk f)))

-- read, whatever recv gives before it would block, returns and keeps the read buffer at its 2048
-- bytes and the index within them.
pub read-IsBuffered :
    (answers : List RecvResult) (c : HttpConn)
    → IsBuffered c
    → Returns (λ r. IsBuffered r.0) (read (answers ++ recv_again ∷ []) c)
unfolding read
read-IsBuffered answers c h =
    Returns-if (ltb read_buffer_size c.read_idx) (λ e. returns h)
      (λ e. read_loop-IsBuffered answers c h)

-- The chunks as one text.
abbrev pub joined : List Bytes → Bytes
joined [] = []
joined (b ∷ bs) = b ++ joined bs

abbrev pub is_empty : Bytes → Bool
is_empty [] = true
is_empty (b ∷ s) = false

-- What read leaves of `c` where it has read `text`.
pub record Stores (text : Bytes) (c : HttpConn) (r : HttpConn × Bool) : Type 0 where
  pub stays : r.1 ≡ true
  pub only : r.0 ≡ record c { read_buf = r.0.read_buf; read_idx = c.read_idx + length text }
  pub text_is : take r.0.read_idx r.0.read_buf ≡ take c.read_idx c.read_buf ++ text

-- read returns false where the bytes that come fill what is left of the read buffer, whatever
-- follows.
pub read-full :
    (bytes more : Bytes) (answers : List RecvResult) (c : HttpConn)
    → IsBuffered c
    → read_buffer_size - c.read_idx ≤ length bytes
    → Returns (λ r. r.1 ≡ false) (read (got bytes ∷ got more ∷ answers) c)
unfolding read read_loop
read-full bytes more answers c h f =
    let chunk = recv (read_buffer_size - c.read_idx) bytes in
    let taken = length-take (read_buffer_size - c.read_idx) bytes in
    let g : c.read_idx + length chunk ≤ read_buffer_size = omega (arith, h.within, taken) in
    let no_room : read_buffer_size - (c.read_idx + length chunk) ≡ 0 =
      omega (arith, h.within, taken) in
    Returns-if (ltb read_buffer_size c.read_idx) (λ e. returns refl)
      (λ e.
        Returns-if (length chunk == 0) (λ i. returns refl)
          (λ i. rw (store_chunk c h chunk g (got more ∷ answers), no_room) (returns refl)))
