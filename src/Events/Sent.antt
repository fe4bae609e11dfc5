-- ===== src/Events/Sent.antt =====
-- The events that the server sends, of server/event.c and server/mcp.c, as packets: an operation code
-- and the bytes behind the length. Floats are bit patterns. `mcp` is the table of the mcp, whose id
-- is 0.
use s3d.Base.{
  ℕ, ◌^◌, ◌<◌, ◌≡◌, refl, ap, arith, Option, none, some, List, [], ◌∷◌, ◌++◌, get_elem?,
  if◌then◌else◌, ◌==◌,
}
use s3d.Wire.{put16, put32, ntohsb, htonsb}
use s3d.Wire.Words.{get32-put32, get16-put16}
use s3d.Object.{Table, Tex, obj_valid}
use s3d.Events.Incoming.{Incoming, event, new_object, texshm, texshm_of, if_length, net_prot_in}

abbrev pub Report : Type 0
Report = ℕ × List ℕ

unfoldable pub event_obj_click : ℕ → Report
event_obj_click oid = (3, put32 oid)

-- the reply to a request for a new object, in prot_com_in
unfoldable pub reply_new_object : ℕ → Report
reply_new_object oid = (16, put32 oid)

-- to the program that has the focus, if there is one, and to the mcp
unfoldable pub to_focus : {F : Type 0} → Table F → ℕ → Report → List (ℕ × Report)
to_focus mcp focus_oid packet = elim (obj_valid mcp focus_oid) [
  | none ↦ (0, packet) ∷ []
  | some o ↦ (o.virtual_pid, packet) ∷ (0, packet) ∷ []
]

unfoldable pub key_packet : ℕ → ℕ → ℕ → ℕ → Report
unfolding htonsb
key_packet key uni modifier state = (4, htonsb (key ∷ uni ∷ modifier ∷ state ∷ []))

unfoldable pub event_key_pressed : {F : Type 0} → Table F → ℕ → ℕ → ℕ → ℕ → ℕ → List (ℕ × Report)
unfolding to_focus key_packet
event_key_pressed mcp focus_oid key uni modifier state =
    to_focus mcp focus_oid (key_packet key uni modifier state)

unfoldable pub mbutton_packet : ℕ → ℕ → Report
mbutton_packet button state = (5, button ∷ state ∷ [])

unfoldable pub event_mbutton_clicked : {F : Type 0} → Table F → ℕ → ℕ → ℕ → List (ℕ × Report)
unfolding to_focus mbutton_packet
event_mbutton_clicked mcp focus_oid button state =
    to_focus mcp focus_oid (mbutton_packet button state)

unfoldable pub texshm_packet : ℕ → ℕ → Tex → Report
texshm_packet oid tex o = (
  6,
  put32 oid
      ++ (put32 tex ++ (put32 o.shmid ++ (put16 o.tw ++ (put16 o.th ++ (put16 o.w ++ put16 o.h))))),
)

unfoldable pub event_texshm : {F : Type 0} → Table F → ℕ → ℕ → Option Report
unfolding texshm_packet
event_texshm t oid tex = elim (obj_valid t oid) [
  | none ↦ none
  | some o ↦ elim (get_elem? o.p_tex tex) [ none ↦ none | some x ↦ some (texshm_packet oid tex x) ]
]

-- the packet of `mcp_del_object`
unfoldable pub deleted_packet : ℕ → Report
deleted_packet mcp_oid = (68, put32 mcp_oid)

-- what a client is to see
pub data News : Type 0 where
  click made deleted : ℕ → News
  key : ℕ → ℕ → ℕ → ℕ → News
  mbutton : ℕ → ℕ → News
  texture : ℕ → ℕ → Tex → News

-- the packet that tells it
unfoldable pub packet_of : News → Report
unfolding event_obj_click reply_new_object deleted_packet key_packet mbutton_packet texshm_packet
packet_of (click oid) = event_obj_click oid
packet_of (made oid) = reply_new_object oid
packet_of (deleted oid) = deleted_packet oid
packet_of (key k u m s) = key_packet k u m s
packet_of (mbutton b s) = mbutton_packet b s
packet_of (texture oid tex x) = texshm_packet oid tex x

-- the numbers of the news have the sizes of their fields
abbrev pub Fits : News → Type 0
Fits (click oid) = oid < 2 ^ 32
Fits (made oid) = oid < 2 ^ 32
Fits (deleted oid) = oid < 2 ^ 32
Fits (key k u m s) = (k < 2 ^ 16) × (u < 2 ^ 16) × (m < 2 ^ 16) × (s < 2 ^ 16)
Fits (mbutton b s) = (b < 2 ^ 8) × (s < 2 ^ 8)
Fits (texture oid tex x) =
    (oid < 2 ^ 32)
    × (tex < 2 ^ 32)
    × (x.shmid < 2 ^ 32)
    × (x.tw < 2 ^ 16)
    × (x.th < 2 ^ 16)
    × (x.w < 2 ^ 16)
    × (x.h < 2 ^ 16)

-- and what it is told
abbrev pub told : News → Incoming
told (click oid) = event 1 4 (oid ∷ [])
told (made oid) = new_object oid
told (deleted oid) = event 33 4 (oid ∷ [])
told (key k u m s) = event (if s == 0 then 2 else 4) 2 (k ∷ u ∷ m ∷ s ∷ [])
told (mbutton b s) = event 3 2 (b ∷ s ∷ [])
told (texture oid tex x) =
    texshm
      (record { oid = oid; tex = tex; shmid = x.shmid; tw = x.tw; th = x.th; w = x.w; h = x.h })

-- A client reads from the packet of the server the news with the numbers that were sent, if these have
-- the sizes of their fields.
pub net_prot_in-sent : (n : News) → Fits n → net_prot_in (packet_of n).0 (packet_of n).1 ≡ told n
unfolding net_prot_in if_length packet_of event_obj_click reply_new_object deleted_packet key_packet
    mbutton_packet texshm_packet htonsb ntohsb texshm_of
net_prot_in-sent (click oid) f = ap (λ v. event 1 4 (v ∷ [])) (get32-put32 oid [] f)
net_prot_in-sent (made oid) f = ap new_object (get32-put32 oid [] f)
net_prot_in-sent (deleted oid) f = ap (λ v. event 33 4 (v ∷ [])) (get32-put32 oid [] f)
net_prot_in-sent (key k u m s) f =
    ground (
      arith,
      get16-put16 k [] f.0,
      get16-put16 u [] f.1,
      get16-put16 m [] f.2,
      get16-put16 s [] f.3,
    )
net_prot_in-sent (mbutton b s) f = refl
net_prot_in-sent (texture oid tex x) f = ground (
  arith,
  get32-put32 oid [] f.0,
  get32-put32 tex [] f.1,
  get32-put32 x.shmid [] f.2,
  get16-put16 x.tw [] f.3,
  get16-put16 x.th [] f.4,
  get16-put16 x.w [] f.5,
  get16-put16 x.h [] f.6,
)
