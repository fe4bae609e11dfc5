-- ===== src/Tcp/Connection.antt =====
-- A whole connection: what one side sends by net_send and prot_com_out, the other side gets, packet by
-- packet, and reads by prot_com_in and net_prot_in.
use s3d.Base.{
  ℕ, ◌^◌, ◌≤◌, ◌≡◌, refl, sym, ap, ◌∙◌, arith, true, List, [], ◌∷◌, ◌++◌, length, map, append-nil,
  append_assoc, ap₂,
}
use s3d.Client
use s3d.Client.{Packet}
use s3d.Wire.{htonlb, htonsb}
use s3d.Wire.Words.{AllBelow}
use s3d.Proto.{Command, decode}
use s3d.Proto.Calls.{Call, send, numbers, meaning}
use s3d.Proto.RoundTrip.{decode-send}
use s3d.Events.Incoming.{Incoming, net_prot_in}
use s3d.Events.Sent.{
  News, Fits, packet_of, told, net_prot_in-sent, event_obj_click, reply_new_object, deleted_packet,
  key_packet, mbutton_packet, texshm_packet,
}
use s3d.Tcp.{
  Reader, Writer, maxplen, frame, tcp_net_receive, tcp_prot_com_in, take_packets, receive_packets,
}
use s3d.Tcp.Readn.{ReadsWell}
use s3d.Tcp.Writen.{WritesWell, send_packets, stream, send_packets-stream}
use s3d.Tcp.Packets.{tcp_prot_com_in-frame, tcp_net_receive-frame}

-- no payload is longer than `bound`
abbrev pub NoneLonger : ℕ → List Packet → Type 0
NoneLonger bound [] = Unit
NoneLonger bound ((opcode, buf) ∷ ps) = (length buf ≤ bound) × NoneLonger bound ps

module _ (r : Reader) (well : ReadsWell r) where
  -- The server takes the packets out of a stream in which they stand one behind the other.
  take_packets-stream :
      (ps : List Packet) (ibuf : List ℕ) (s : r.Socket) (rest : List ℕ)
      → length ibuf ≡ maxplen
      → NoneLonger 65532 ps
      → r.waiting s ≡ stream ps ++ rest
      → take_packets r ibuf s (length ps) ≡ ps
  unfolding take_packets stream
  take_packets-stream [] ibuf s rest hi hp e = refl
  take_packets-stream ((opcode, buf) ∷ ps) ibuf s rest hi hp e =
      let q =
        tcp_prot_com_in-frame r well ibuf s opcode buf (stream ps ++ rest) (omega arith)
          (omega arith) (e ∙ append_assoc (frame (opcode, buf)) (stream ps) rest) in
      rw q.0 (
        ap (λ l. (opcode, buf) ∷ l)
          (take_packets-stream ps (tcp_prot_com_in r ibuf s).ibuf (tcp_prot_com_in r ibuf s).socket
            rest (q.2 ∙ hi) hp.1 q.1))

  receive_packets-stream :
      (unset : ℕ → List ℕ)
      → ((n : ℕ) → length (unset n) ≡ n)
      → (ps : List Packet) (s : r.Socket) (rest : List ℕ) → NoneLonger 65535 ps
      → r.waiting s ≡ stream ps ++ rest
      → receive_packets r unset s (length ps) ≡ ps
  unfolding receive_packets stream
  receive_packets-stream unset hu [] s rest hp e = refl
  receive_packets-stream unset hu ((opcode, buf) ∷ ps) s rest hp e =
      let q =
        tcp_net_receive-frame r well unset s opcode buf (stream ps ++ rest) hu (omega arith)
          (e ∙ append_assoc (frame (opcode, buf)) (stream ps) rest) in
      rw q.0 (
        ap (λ l. (opcode, buf) ∷ l)
          (receive_packets-stream unset hu ps (tcp_net_receive r unset s).1 rest hp.1 q.1))

send_short : (c : Call) → length (send c).1 ≤ 65532
unfolding send Client.s3d_clone_target Client.s3d_del_object Client.s3d_link Client.s3d_unlink
    Client.s3d_push_vertex Client.s3d_push_material_a Client.s3d_push_polygon Client.s3d_push_line
    Client.s3d_pop_vertex Client.s3d_pop_material Client.s3d_pop_polygon Client.s3d_pop_line
    Client.s3d_pop_texture Client.s3d_pep_material_a Client.s3d_pep_vertex Client.s3d_pep_line
    Client.s3d_pep_polygon_tex_coord Client.s3d_pep_material_texture Client.s3d_flags_on
    Client.s3d_flags_off Client.s3d_translate Client.s3d_rotate Client.s3d_scale
    Client.s3d_mcp_focus Client.s3d_push_material Client.s3d_pep_material Client.s3d_push_texture
    htonlb
send_short (Call.clone_target a b) = omega arith
send_short c = omega arith

packet_of_short : (n : News) → length (packet_of n).1 ≤ 65535
unfolding packet_of event_obj_click reply_new_object deleted_packet key_packet mbutton_packet
    texshm_packet htonsb
packet_of_short (News.click oid) = omega arith
packet_of_short n = omega arith

-- the numbers of all calls have 32 bits
abbrev pub AllFit : List Call → Type 0
AllFit [] = Unit
AllFit (c ∷ cs) = AllBelow (2 ^ 32) (numbers c) × AllFit cs

abbrev pub NewsFit : List News → Type 0
NewsFit [] = Unit
NewsFit (n ∷ ns) = Fits n × NewsFit ns

sends_short : (cs : List Call) → NoneLonger 65532 (map send cs)
sends_short [] = tt
sends_short (c ∷ cs) = (send_short c, sends_short cs)

packets_short : (ns : List News) → NoneLonger 65535 (map packet_of ns)
packets_short [] = tt
packets_short (n ∷ ns) = (packet_of_short n, packets_short ns)

-- what prot_com_in and net_prot_in make of a packet
abbrev pub command : Packet → Command
command p = decode true p.0 p.1

abbrev pub incoming : Packet → Incoming
incoming p = net_prot_in p.0 p.1

commands_lem : (cs : List Call) → AllFit cs → map command (map send cs) ≡ map meaning cs
commands_lem [] h = refl
commands_lem (c ∷ cs) h = ap₂ ◌∷◌ (decode-send c h.0) (commands_lem cs h.1)

incoming_lem : (ns : List News) → NewsFit ns → map incoming (map packet_of ns) ≡ map told ns
incoming_lem [] h = refl
incoming_lem (n ∷ ns) h = ap₂ ◌∷◌ (net_prot_in-sent n h.0) (incoming_lem ns h.1)

-- If no call of `read` fails and every call of `write` takes a byte at least, then however these cut
-- the bytes, the server reads from a new connection over TCP, with the mcp as the client, the calls
-- about one element or one object that is there which the client made, in order, where the numbers of
-- the calls have 32 bits.
pub calls_arrive :
    (w : Writer) (r : Reader) (client : w.Socket) (server : r.Socket) (ibuf : List ℕ)
    (cs : List Call)
    → WritesWell w
    → ReadsWell r
    → length ibuf ≡ maxplen
    → w.sent client ≡ []
    → r.waiting server ≡ w.sent (send_packets w client (map send cs))
    → AllFit cs
    → map command (take_packets r ibuf server (length (map send cs))) ≡ map meaning cs
calls_arrive w r client server ibuf cs ww reads hi e0 e h =
    ap (map command) (
      take_packets-stream r reads (map send cs) ibuf server [] hi (sends_short cs) (
        e
        ∙ send_packets-stream w ww client (map send cs)
        ∙ ap (λ l. l ++ stream (map send cs)) e0
        ∙ sym (append-nil (stream (map send cs)))))
    ∙ commands_lem cs h

-- If no call of `read` fails and every call of `write` takes a byte at least, then however these cut
-- the bytes, a client reads from a new connection over TCP what the server told it, in order, of clicks,
-- new objects, objects that the mcp loses, keys, mouse buttons and textures in shared memory, where
-- the numbers have the sizes of their fields.
pub news_arrive :
    (w : Writer) (r : Reader) (server : w.Socket) (client : r.Socket) (unset : ℕ → List ℕ)
    (ns : List News)
    → WritesWell w
    → ReadsWell r
    → ((n : ℕ) → length (unset n) ≡ n)
    → w.sent server ≡ []
    → r.waiting client ≡ w.sent (send_packets w server (map packet_of ns))
    → NewsFit ns
    → map incoming (receive_packets r unset client (length (map packet_of ns))) ≡ map told ns
news_arrive w r server client unset ns ww reads hu e0 e h =
    ap (map incoming) (
      receive_packets-stream r reads unset hu (map packet_of ns) client [] (packets_short ns) (
        e
        ∙ send_packets-stream w ww server (map packet_of ns)
        ∙ ap (λ l. l ++ stream (map packet_of ns)) e0
        ∙ sym (append-nil (stream (map packet_of ns)))))
    ∙ incoming_lem ns h
