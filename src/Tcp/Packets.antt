-- ===== src/Tcp/Packets.antt =====
-- One packet: what the receiving side gets from the bytes of `frame`.
use s3d.Base.{
  ℕ, zero, suc, min, ◌+◌, ◌-◌, ◌^◌, ◌≤◌, ◌<◌, ◌≡◌, ◌↔◌, refl, sym, ap, ◌∙◌, arith, true, none, some,
  List, [], ◌∷◌, ◌++◌, length, take, drop, length-blit, lt→ltb, length-take, append-nil,
}
use s3d.Wire.{put16}
use s3d.Wire.Words.{get16-put16}
use s3d.Tcp.{Reader, maxplen, frame, tcp_readn, read_payload, tcp_prot_com_in, tcp_net_receive}
use s3d.Tcp.Readn.{ReadsWell, tcp_readn_whole, take-append, drop-append, take-nil, drop-nil}
use s3d.Tcp.Buffer.{
  take-prefix, drop-prefix, header, headed, length-headed, packet_in-filled, blit-all,
}

module _ (r : Reader) (well : ReadsWell r) where
  open r use {Socket, waiting}

  -- tcp_readn at the front of bytes that are known
  pub readn-front :
      (s : Socket) (xs ys : List ℕ)
      → waiting s ≡ xs ++ ys
      → let (ok, bytes, s') = tcp_readn r s (length xs) in
        (ok ≡ true) × (bytes ≡ xs) × (waiting s' ≡ ys)
  readn-front s xs ys e =
      let q = tcp_readn_whole r well s (length xs) in
      (
        q.0,
        q.1 ∙ ap (take (length xs)) e ∙ take-prefix xs ys,
        q.2 ∙ ap (drop (length xs)) e ∙ drop-prefix xs ys,
      )

  read_payload_lem :
      (s : Socket) (n : ℕ)
      → let (ok, bytes, s') = read_payload r s n in
        (bytes ≡ take n (waiting s)) × (waiting s' ≡ drop n (waiting s))
  unfolding read_payload
  read_payload_lem s zero = (refl, refl)
  read_payload_lem s (suc n) =
      let q = tcp_readn_whole r well s (suc n) in rw (lt→ltb 0 (suc n) (omega arith)) (q.1, q.2)

  -- what tcp_prot_com_in does behind a header
  behind_header :
      (ibuf : List ℕ) (s : Socket) (opcode n : ℕ) (part rest : List ℕ)
      → n < 2 ^ 16
      → length part ≤ n
      → 4 + length part ≤ length ibuf
      → waiting s ≡ header opcode n ++ (part ++ rest)
      → take n (part ++ rest) ≡ part
      → drop n (part ++ rest) ≡ rest
      → let h = tcp_prot_com_in r ibuf s in
        (h.packet ≡ some (opcode, part ++ take (n - length part) (drop (4 + length part) ibuf)))
        × (waiting h.socket ≡ rest)
        × (length h.ibuf ≡ length ibuf)
        × (h.reached ≡ 4 + length part)
  unfolding tcp_prot_com_in
  behind_header ibuf s opcode n part rest hn hp hi e et ed =
      let head = readn-front s (header opcode n) (part ++ rest) e in
      let body = read_payload_lem (tcp_readn r s 3).2 n in
      let bytes = body.0 ∙ ap (take n) head.2 ∙ et in
      rw (head.0, head.1, length-headed ibuf opcode n part hi hn, bytes)
        (
          ap some (packet_in-filled ibuf opcode n part hi hn hp),
          body.1 ∙ ap (drop n) head.2 ∙ ed,
          length-blit (headed ibuf opcode n) 4 part ∙ length-blit ibuf 0 (header opcode n),
          refl,
        )

  -- A packet that fits behind byte 4 of the buffer is handed on as it was sent, and what follows it is
  -- left. The bytes behind the header are written from byte 4 on.
  pub tcp_prot_com_in-frame :
      (ibuf : List ℕ) (s : Socket) (opcode : ℕ) (buf rest : List ℕ)
      → length buf < 2 ^ 16
      → 4 + length buf ≤ length ibuf
      → waiting s ≡ frame (opcode, buf) ++ rest
      → let h = tcp_prot_com_in r ibuf s in
        (h.packet ≡ some (opcode, buf))
        × (waiting h.socket ≡ rest)
        × (length h.ibuf ≡ length ibuf)
        × (h.reached ≡ 4 + length buf)
  unfolding frame
  tcp_prot_com_in-frame ibuf s opcode buf rest hb hi e =
      let q =
        behind_header ibuf s opcode (length buf) buf rest hb (omega arith) hi e
          (take-prefix buf rest) (drop-prefix buf rest) in
      (
        q.0
            ∙ ap (λ l. some (opcode, l))
                (let z : length buf - length buf ≡ 0 = omega arith in rw (z, append-nil buf) refl),
        q.1,
        q.2,
        q.3,
      )

  -- Where the stream ends in the middle of a packet, prot_com_in gets a packet of the length that the
  -- header announces all the same: behind the bytes that came stands what the buffer held before.
  pub tcp_prot_com_in-cut :
      (ibuf : List ℕ) (s : Socket) (opcode n : ℕ) (part : List ℕ)
      → n < 2 ^ 16
      → length part < n
      → 4 + n ≤ length ibuf
      → waiting s ≡ header opcode n ++ part
      → (tcp_prot_com_in r ibuf s).packet
        ≡ some (opcode, part ++ take (n - length part) (drop (4 + length part) ibuf))
  tcp_prot_com_in-cut ibuf s opcode n part hn hp hi e =
      (behind_header ibuf s opcode n part [] hn (omega arith) (omega arith)
        (e ∙ ap (λ l. header opcode n ++ l) (sym (append-nil part)))
        (take-append n part [] (omega arith)
          ∙ ap (λ l. part ++ l) (take-nil (n - length part))
          ∙ append-nil part)
        (drop-append n part [] (omega arith) ∙ drop-nil (n - length part))).0

  -- Of a packet of up to 65535 bytes the server writes past the end of its buffer of 65536 bytes exactly
  -- if there are more than 65532 of them.
  pub tcp_prot_com_in-overrun :
      (ibuf : List ℕ) (s : Socket) (opcode : ℕ) (buf rest : List ℕ)
      → length ibuf ≡ maxplen
      → length buf < 2 ^ 16
      → waiting s ≡ frame (opcode, buf) ++ rest
      → (maxplen < (tcp_prot_com_in r ibuf s).reached) ↔ (65532 < length buf)
  unfolding frame tcp_prot_com_in
  tcp_prot_com_in-overrun ibuf s opcode buf rest hi hb e =
      let head = readn-front s (header opcode (length buf)) (buf ++ rest) e in
      let body = read_payload_lem (tcp_readn r s 3).2 (length buf) in
      let bytes = body.0 ∙ ap (take (length buf)) head.2 ∙ take-prefix buf rest in
      rw (head.0, head.1, length-headed ibuf opcode (length buf) [] (omega arith) hb, bytes)
        (λ h. omega arith, λ h. omega arith)

  -- _s3d_tcp_net_receive hands a packet on as it was sent, and leaves what follows it.
  pub tcp_net_receive-frame :
      (unset : ℕ → List ℕ) (s : Socket) (opcode : ℕ) (buf rest : List ℕ)
      → ((n : ℕ) → length (unset n) ≡ n)
      → length buf < 2 ^ 16
      → waiting s ≡ frame (opcode, buf) ++ rest
      → let h = tcp_net_receive r unset s in (h.0 ≡ some (opcode, buf)) × (waiting h.1 ≡ rest)
  unfolding frame tcp_net_receive
  tcp_net_receive-frame unset s opcode buf rest hu hb e =
      let one = readn-front s (opcode ∷ []) (put16 (length buf) ++ (buf ++ rest)) e in
      let two = readn-front (tcp_readn r s 1).2 (put16 (length buf)) (buf ++ rest) one.2 in
      let body = readn-front (tcp_readn r (tcp_readn r s 1).2 2).2 buf rest two.2 in
      rw
        (
          one.0,
          one.1,
          two.1,
          blit-all (unset 2) (put16 (length buf)) (hu 2),
          get16-put16 (length buf) [] hb,
          body.1,
        )
        (ap (λ l. some (opcode, l)) (blit-all (unset (length buf)) buf (hu (length buf))), body.2)

  -- The server deletes the process instead of handing a packet on exactly if the peer has closed the
  -- connection and fewer than three bytes of it are left.
  pub tcp_prot_com_in-dead :
      (ibuf : List ℕ) (s : Socket)
      → ((tcp_prot_com_in r ibuf s).packet ≡ none) ↔ (length (waiting s) < 3)
  unfolding tcp_prot_com_in
  tcp_prot_com_in-dead ibuf s =
      let q = tcp_readn_whole r well s 3 in
      let n : length (tcp_readn r s 3).1 ≡ min 3 (length (waiting s)) =
        ap length q.1 ∙ length-take 3 (waiting s) in
      (
        λ (h : (tcp_prot_com_in r ibuf s).packet ≡ none). ground (arith, q.0, n),
        λ (h : length (waiting s) < 3). ground (arith, q.0, n),
      )
