-- ===== src/Tcp/Writen.antt =====
-- The loop of tcp_writen in server/tcp.c and libs3d/tcp.c.
use s3d.Base.{
  ℕ, zero, suc, ◌≤◌, ◌<◌, ◌≡◌, refl, sym, ap, ◌∙◌, arith, true, some, List, [], ◌∷◌, ◌++◌, length,
  take, drop, length-drop, append-nil, append_assoc, take-append-drop,
}
use s3d.Client.{Packet}
use s3d.Tcp.{Writer, write_left, tcp_writen, net_send, frame}

-- Every call of `write` takes at least one byte.
abbrev pub WritesWell : Writer → Type 0
WritesWell w =
    (s : w.Socket) (bytes : List ℕ)
    → 0 < length bytes
    → (n : ℕ) × ((w.write s bytes).0 ≡ some n) × (0 < n)

module _ (w : Writer) where
  open w use {Socket, write, sent, write_bytes}

  module _ (fuel : ℕ) (s : Socket) (b : ℕ) (bs : List ℕ) where
    write_left-some :
        (n : ℕ)
        → 0 < n
        → (write s (b ∷ bs)).0 ≡ some n
        → write_left w (suc fuel) s (b ∷ bs)
          ≡ write_left w fuel (write s (b ∷ bs)).1 (drop n (b ∷ bs))
    unfolding write_left
    write_left-some n h e = ground arith

  -- what is sent, and what was left to send
  write_left_lem :
      WritesWell w
      → (fuel : ℕ) (s : Socket) (bytes : List ℕ) → length bytes ≤ fuel
      → ((write_left w fuel s bytes).0 ≡ true)
        × (sent (write_left w fuel s bytes).1 ≡ sent s ++ bytes)
  unfolding write_left
  write_left_lem well zero s [] h = (refl, sym (append-nil (sent s)))
  write_left_lem well (suc fuel) s [] h = (refl, sym (append-nil (sent s)))
  write_left_lem well zero s (b ∷ bs) h = absurd (omega arith)
  write_left_lem well (suc fuel) s (b ∷ bs) h =
      let (n, e, p) = well s (b ∷ bs) (omega arith) in
      let got = write_bytes s (b ∷ bs) n e in
      let rest =
        write_left_lem well fuel (write s (b ∷ bs)).1 (drop n (b ∷ bs))
          (omega (arith, length-drop n (b ∷ bs))) in
      rw (write_left-some fuel s b bs n p e) (
        rest.0,
        rest.1
            ∙ ap (λ l. l ++ drop n (b ∷ bs)) got.1
            ∙ append_assoc (sent s) (take n (b ∷ bs)) (drop n (b ∷ bs))
            ∙ ap (λ l. sent s ++ l) (take-append-drop n (b ∷ bs)),
      )

  -- However the calls of `write` cut the bytes, tcp_writen sends all of them, in order, if every call
  -- takes a byte at least.
  pub tcp_writen_whole :
      WritesWell w
      → (s : Socket) (bytes : List ℕ)
      → let (ok, s') = tcp_writen w s bytes in (ok ≡ true) × (sent s' ≡ sent s ++ bytes)
  unfolding tcp_writen
  tcp_writen_whole well s bytes = write_left_lem well (length bytes) s bytes (omega arith)

  -- the packets of several calls of net_send
  unfoldable pub send_packets : Socket → List Packet → Socket
  unfolding net_send
  send_packets s [] = s
  send_packets s (p ∷ ps) = send_packets (net_send w s p).1 ps

-- the bytes of several packets
unfoldable pub stream : List Packet → List ℕ
stream [] = []
stream (p ∷ ps) = frame p ++ stream ps

pub send_packets-stream :
    (w : Writer)
    → WritesWell w
    → (s : w.Socket) (ps : List Packet) → w.sent (send_packets w s ps) ≡ w.sent s ++ stream ps
unfolding send_packets stream net_send
send_packets-stream w well s [] = sym (append-nil (w.sent s))
send_packets-stream w well s (p ∷ ps) =
    send_packets-stream w well (net_send w s p).1 ps
    ∙ ap (λ l. l ++ stream ps) (tcp_writen_whole w well s (frame p)).1
    ∙ append_assoc (w.sent s) (frame p) (stream ps)
