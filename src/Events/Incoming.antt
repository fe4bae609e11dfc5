-- ===== src/Events/Incoming.antt =====
-- `net_prot_in` of libs3d/proto_in.c: what a packet of the server is for a client. The buffer of an
-- event is given as the numbers in it, after the change to the byte order of the machine; `malloc`
-- has memory.
use s3d.Base.{ℕ, ◌-◌, List, [], ◌∷◌, ◌++◌, length, drop, take, if◌then◌else◌, ◌==◌}
use s3d.Wire.{get16, get32, ntohlb, ntohsb}
use s3d.Client.Queue.{queue_new_object}
use s3d.Events.{Events, Callbacks, s3d_push_event}

-- `struct s3d_texshm`
pub record Texshm : Type 0 where
  pub oid : ℕ
  pub tex : ℕ
  pub shmid : ℕ
  pub tw : ℕ
  pub th : ℕ
  pub w : ℕ
  pub h : ℕ

-- what comes of a packet: an event with its type, its length and its numbers, a call of another part
-- of libs3d, or nothing
pub data Incoming : Type 0 where
  ready quit nothing : Incoming
  event : ℕ → ℕ → List ℕ → Incoming
  new_object : ℕ → Incoming
  texshm : Texshm → Incoming

-- a name with the null byte that is put at its end
unfoldable pub end_name : List ℕ → List ℕ
end_name name = take (length name - 1) name ++ (0 ∷ [])

-- `sizeof(struct mcp_object)` and `sizeof(struct s3d_obj_info)`
abbrev pub mcp_object_size : ℕ
mcp_object_size = 276

abbrev pub obj_info_size : ℕ
obj_info_size = 296

unfoldable pub texshm_of : List ℕ → Texshm
texshm_of buf = record {
  oid = get32 buf;
  tex = get32 (drop 4 buf);
  shmid = get32 (drop 8 buf);
  tw = get16 (drop 12 buf);
  th = get16 (drop 14 buf);
  w = get16 (drop 16 buf);
  h = get16 (drop 18 buf);
}

-- the `if (length == size)` of the cases
unfoldable pub if_length : List ℕ → ℕ → Incoming → Incoming
if_length buf size result = if length buf == size then result else nothing

unfoldable pub net_prot_in : ℕ → List ℕ → Incoming
unfolding if_length texshm_of ntohlb ntohsb end_name
net_prot_in opcode buf =
    if opcode == 1
    then ready
    else if opcode == 2
    then quit
    else if opcode == 3
    then if_length buf 4 (event 1 4 (get32 buf ∷ []))
    else if opcode == 16
    then if_length buf 4 (new_object (get32 buf))
    else if opcode == 4
    then if_length buf 8 (event (if get16 (drop 6 buf) == 0 then 2 else 4) 2 (ntohsb buf 4))
    else if opcode == 5
    then if_length buf 2 (event 3 2 buf)
    else if opcode == 67
    then if_length buf mcp_object_size
        (event 32 mcp_object_size (ntohlb buf 5 ++ end_name (drop 20 buf)))
    else if opcode == 32
    then if_length buf obj_info_size
        (event 17 obj_info_size (ntohlb buf 10 ++ end_name (drop 40 buf)))
    else if opcode == 6
    then if_length buf 20 (texshm (texshm_of buf))
    else if opcode == 68
    then if_length buf 4 (event 33 4 (get32 buf ∷ []))
    else nothing

-- The same with its effect on the events and on the queue of objects. `address` is where `malloc` puts
-- the event; what `ready`, `quit` and `texshm` call is not in this state.
unfoldable pub receive : (List ℕ → ℕ) → Callbacks → Events → ℕ → ℕ → List ℕ → Events
unfolding net_prot_in s3d_push_event queue_new_object
receive oid_of cbs s address opcode buf = elim (net_prot_in opcode buf) [
  | event type long numbers ↦
      s3d_push_event oid_of cbs s
        (record { address = address; event = type; length = long; buf = numbers })
  | new_object oid ↦ record s { queue = (queue_new_object oid s.queue).1 }
  | ready ↦ s
  | quit ↦ s
  | nothing ↦ s
  | texshm t ↦ s
]
