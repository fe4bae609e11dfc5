-- ===== src/Tcp/Tests.antt =====
-- Sockets that hand out and take a few bytes at a time, and the theorems on them.
use s3d.Base.{
  ℕ, zero, suc, ◌<◌, ◌≡◌, ◌↔◌, ◌≤◌, refl, ap, ◌∙◌, sym, arith, none, some, some_of_eq, List, [],
  ◌∷◌, ◌++◌, length, map, take, drop, min, replicate, blit, length-take, take-append-drop,
}
use s3d.Proto.Calls.{Call, send, numbers, meaning}
use s3d.Client
use s3d.Wire.{htonlb}
use s3d.Events.Sent.{News, packet_of, told}
use s3d.Tcp.{Reader, Writer, maxplen, frame, tcp_prot_com_in, take_packets, receive_packets}
use s3d.Tcp.Readn.{ReadsWell}
use s3d.Tcp.Writen.{WritesWell, send_packets}
use s3d.Tcp.Buffer.{header}
use s3d.Tcp.Packets.{tcp_prot_com_in-cut, tcp_prot_com_in-overrun, tcp_prot_com_in-dead}
use s3d.Tcp.Connection.{command, incoming, calls_arrive, news_arrive}

-- `read` hands out two bytes at most.
taken_end : (s : List ℕ) (n : ℕ) → 0 < n → take (min n 2) s ≡ [] → s ≡ []
taken_end [] n h e = refl
taken_end (x ∷ s) n h e = absurd (omega (arith, ap length e, length-take (min n 2) (x ∷ s)))

slow_bytes :
    (s : List ℕ) (n : ℕ) (bytes : List ℕ)
    → some (take (min n 2) s) ≡ some bytes
    → (length bytes ≤ n) × (bytes ++ drop (min n 2) s ≡ s)
slow_bytes s n bytes e =
    let b = some_of_eq e in
    (
      omega (arith, ap length b, length-take (min n 2) s),
      ap (λ l. l ++ drop (min n 2) s) (sym b) ∙ take-append-drop (min n 2) s,
    )

abbrev slow : Reader
slow = record {
  Socket = List ℕ;
  read = λ s n. (some (take (min n 2) s), drop (min n 2) s);
  waiting = λ s. s;
  read_bytes = slow_bytes;
  read_end = λ s n h e. taken_end s n h (some_of_eq e);
}

slow-ReadsWell : ReadsWell slow
slow-ReadsWell s n e = cc

-- `write` takes three bytes at most.
lazy_bytes :
    (s bytes : List ℕ) (n : ℕ)
    → some (min 3 (length bytes)) ≡ some n
    → (n ≤ length bytes) × (s ++ take (min 3 (length bytes)) bytes ≡ s ++ take n bytes)
lazy_bytes s bytes n e = let b = some_of_eq e in (omega (arith, b), ap (λ k. s ++ take k bytes) b)

abbrev lazy : Writer
lazy = record {
  Socket = List ℕ;
  write = λ s bytes. (some (min 3 (length bytes)), s ++ take (min 3 (length bytes)) bytes);
  sent = λ s. s;
  write_bytes = lazy_bytes;
}

lazy-WritesWell : WritesWell lazy
lazy-WritesWell s bytes h = (min 3 (length bytes), refl, omega arith)

zeros : ℕ → List ℕ
zeros n = replicate n 0

length-zeros : (n : ℕ) → length (zeros n) ≡ n
unfolding zeros
length-zeros zero = refl
length-zeros (suc n) = ap suc (length-zeros n)

abbrev two_calls : List Call
two_calls = Call.link 7 300 ∷ Call.push_vertex 7 1 2 3 ∷ []

calls_arrive_example :
    map command (take_packets slow (zeros maxplen) (send_packets lazy [] (map send two_calls)) 2)
    ≡ map meaning two_calls
unfolding numbers
calls_arrive_example =
    calls_arrive lazy slow [] (send_packets lazy [] (map send two_calls)) (zeros maxplen) two_calls
      lazy-WritesWell slow-ReadsWell (length-zeros maxplen) refl refl (omega arith)

abbrev two_news : List News
two_news = News.click 70000 ∷ News.key 13 13 0 1 ∷ []

news_arrive_example :
    map incoming (receive_packets slow zeros (send_packets lazy [] (map packet_of two_news)) 2)
    ≡ map told two_news
news_arrive_example =
    news_arrive lazy slow [] (send_packets lazy [] (map packet_of two_news)) zeros two_news
      lazy-WritesWell slow-ReadsWell length-zeros refl refl (omega arith)

tcp_prot_com_in-cut_example :
    (tcp_prot_com_in slow (9 ∷ 9 ∷ 9 ∷ 9 ∷ 1 ∷ 2 ∷ 3 ∷ 4 ∷ []) (header 6 4 ++ (8 ∷ []))).packet
    ≡ some (6, 8 ∷ 2 ∷ 3 ∷ 4 ∷ [])
tcp_prot_com_in-cut_example =
    tcp_prot_com_in-cut slow slow-ReadsWell (9 ∷ 9 ∷ 9 ∷ 9 ∷ 1 ∷ 2 ∷ 3 ∷ 4 ∷ [])
      (header 6 4 ++ (8 ∷ [])) 6 4 (8 ∷ []) (omega arith) (omega arith) (omega arith) refl

tcp_prot_com_in-overrun_example :
    (maxplen < (tcp_prot_com_in slow (zeros maxplen) (frame (8, zeros 65533) ++ [])).reached)
    ↔ (65532 < length (zeros 65533))
tcp_prot_com_in-overrun_example =
    tcp_prot_com_in-overrun slow slow-ReadsWell (zeros maxplen) (frame (8, zeros 65533) ++ []) 8
      (zeros 65533) [] (length-zeros maxplen) (omega (arith, length-zeros 65533)) refl

-- the calls at work
two_calls_arrive :
    take_packets slow (zeros 64) (send_packets lazy [] (map send two_calls)) 2 ≡ map send two_calls
unfolding take_packets send_packets zeros send Client.s3d_link Client.s3d_push_vertex htonlb blit
two_calls_arrive = refl

tcp_prot_com_in-dead_example :
    ((tcp_prot_com_in slow (zeros 8) (6 ∷ 0 ∷ [])).packet ≡ none)
    ↔ (length {A = ℕ} (6 ∷ 0 ∷ []) < 3)
tcp_prot_com_in-dead_example = tcp_prot_com_in-dead slow slow-ReadsWell (zeros 8) (6 ∷ 0 ∷ [])
