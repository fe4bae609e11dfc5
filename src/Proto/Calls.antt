-- ===== src/Proto/Calls.antt =====
-- The calls of libs3d that send a packet about one element or one object that is there, the packets
-- that they send, and what they mean to the server. (s3d_new_object and s3d_clone make an object.)
use s3d.Base.{ℕ, ◌%◌, ◌^◌, List, [], ◌∷◌}
use s3d.Client
use s3d.Client.{Packet, one_f}
use s3d.Object.Request
use s3d.Proto.{Command}

-- the calls of libs3d that send a packet about one element or one object that is there
pub data Call : Type 0 where
  clone_target link : ℕ → ℕ → Call
  del_object unlink mcp_focus : ℕ → Call
  push_vertex pep_vertex translate rotate : ℕ → ℕ → ℕ → ℕ → Call
  push_material_a pep_material_a : ℕ → ℕ → ℕ → ℕ → ℕ → ℕ → ℕ → ℕ → ℕ → ℕ → ℕ → ℕ → ℕ → Call
  push_material pep_material : ℕ → ℕ → ℕ → ℕ → ℕ → ℕ → ℕ → ℕ → ℕ → ℕ → Call
  push_texture : ℕ → ℕ → ℕ → Call
  push_polygon : ℕ → ℕ → ℕ → ℕ → ℕ → Call
  push_line pep_line : ℕ → ℕ → ℕ → ℕ → Call
  pop_vertex pop_material pop_polygon pop_line pop_texture : ℕ → ℕ → Call
  pep_polygon_tex_coord : ℕ → ℕ → ℕ → ℕ → ℕ → ℕ → ℕ → Call
  pep_material_texture flags_on flags_off scale : ℕ → ℕ → Call

-- the packet that libs3d sends
unfoldable pub send : Call → Packet
send (clone_target a b) = Client.s3d_clone_target a b
send (link a b) = Client.s3d_link a b
send (del_object a) = Client.s3d_del_object a
send (unlink a) = Client.s3d_unlink a
send (mcp_focus a) = Client.s3d_mcp_focus a
send (push_vertex a x y z) = Client.s3d_push_vertex a x y z
send (pep_vertex a x y z) = Client.s3d_pep_vertex a x y z
send (translate a x y z) = Client.s3d_translate a x y z
send (rotate a x y z) = Client.s3d_rotate a x y z
send (push_material_a o a b c d e f g h i j k l) =
    Client.s3d_push_material_a o a b c d e f g h i j k l
send (pep_material_a o a b c d e f g h i j k l) =
    Client.s3d_pep_material_a o a b c d e f g h i j k l
send (push_polygon o a b c m) = Client.s3d_push_polygon o a b c m
send (push_line o a b m) = Client.s3d_push_line o a b m
send (pep_line o a b m) = Client.s3d_pep_line o a b m
send (pop_vertex o n) = Client.s3d_pop_vertex o n
send (pop_material o n) = Client.s3d_pop_material o n
send (pop_polygon o n) = Client.s3d_pop_polygon o n
send (pop_line o n) = Client.s3d_pop_line o n
send (pop_texture o n) = Client.s3d_pop_texture o n
send (pep_polygon_tex_coord o a b c d e f) = Client.s3d_pep_polygon_tex_coord o a b c d e f
send (pep_material_texture o t) = Client.s3d_pep_material_texture o t
send (flags_on o f) = Client.s3d_flags_on o f
send (flags_off o f) = Client.s3d_flags_off o f
send (scale o x) = Client.s3d_scale o x
send (push_material o a b c d e f g h i) = Client.s3d_push_material o a b c d e f g h i
send (pep_material o a b c d e f g h i) = Client.s3d_pep_material o a b c d e f g h i
send (push_texture o w h) = Client.s3d_push_texture o w h

-- the numbers of a call
unfoldable pub numbers : Call → List ℕ
numbers (clone_target a b) = a ∷ b ∷ []
numbers (link a b) = a ∷ b ∷ []
numbers (del_object a) = a ∷ []
numbers (unlink a) = a ∷ []
numbers (mcp_focus a) = a ∷ []
numbers (push_vertex a x y z) = a ∷ x ∷ y ∷ z ∷ []
numbers (pep_vertex a x y z) = a ∷ x ∷ y ∷ z ∷ []
numbers (translate a x y z) = a ∷ x ∷ y ∷ z ∷ []
numbers (rotate a x y z) = a ∷ x ∷ y ∷ z ∷ []
numbers (push_material_a o a b c d e f g h i j k l) =
    o ∷ a ∷ b ∷ c ∷ d ∷ e ∷ f ∷ g ∷ h ∷ i ∷ j ∷ k ∷ l ∷ []
numbers (pep_material_a o a b c d e f g h i j k l) =
    o ∷ a ∷ b ∷ c ∷ d ∷ e ∷ f ∷ g ∷ h ∷ i ∷ j ∷ k ∷ l ∷ []
numbers (push_polygon o a b c m) = o ∷ a ∷ b ∷ c ∷ m ∷ []
numbers (push_line o a b m) = o ∷ a ∷ b ∷ m ∷ []
numbers (pep_line o a b m) = o ∷ a ∷ b ∷ m ∷ []
numbers (pop_vertex o n) = o ∷ n ∷ []
numbers (pop_material o n) = o ∷ n ∷ []
numbers (pop_polygon o n) = o ∷ n ∷ []
numbers (pop_line o n) = o ∷ n ∷ []
numbers (pop_texture o n) = o ∷ n ∷ []
numbers (pep_polygon_tex_coord o a b c d e f) = o ∷ a ∷ b ∷ c ∷ d ∷ e ∷ f ∷ []
numbers (pep_material_texture o t) = o ∷ t ∷ []
numbers (flags_on o f) = o ∷ f ∷ []
numbers (flags_off o f) = o ∷ f ∷ []
numbers (scale o x) = o ∷ x ∷ []
numbers (push_material o a b c d e f g h i) = o ∷ a ∷ b ∷ c ∷ d ∷ e ∷ f ∷ g ∷ h ∷ i ∷ []
numbers (pep_material o a b c d e f g h i) = o ∷ a ∷ b ∷ c ∷ d ∷ e ∷ f ∷ g ∷ h ∷ i ∷ []
numbers (push_texture o w h) = o ∷ w ∷ h ∷ []

-- What the server is to do. A number of elements to delete, and the width and the height of a
-- texture, are cut to 16 bits. A material without alpha is opaque.
unfoldable pub meaning : Call → Command
meaning (clone_target a b) = Command.clone a b
meaning (link a b) = Command.link a b
meaning (del_object a) = Command.del_obj a
meaning (unlink a) = Command.unlink a
meaning (mcp_focus a) = Command.focus a
meaning (push_vertex a x y z) = Command.push_vertex a (x ∷ y ∷ z ∷ []) 1
meaning (pep_vertex a x y z) = Command.pep_vertex a (x ∷ y ∷ z ∷ []) 1
meaning (translate a x y z) = Command.translate a x y z
meaning (rotate a x y z) = Command.rotate a x y z
meaning (push_material_a o a b c d e f g h i j k l) =
    Command.on_data (Request.push_mat o (a ∷ b ∷ c ∷ d ∷ e ∷ f ∷ g ∷ h ∷ i ∷ j ∷ k ∷ l ∷ []) 1)
meaning (pep_material_a o a b c d e f g h i j k l) =
    Command.on_data (Request.pep_mat o (a ∷ b ∷ c ∷ d ∷ e ∷ f ∷ g ∷ h ∷ i ∷ j ∷ k ∷ l ∷ []) 1)
meaning (push_polygon o a b c m) = Command.on_data (Request.push_poly o (a ∷ b ∷ c ∷ m ∷ []) 1)
meaning (push_line o a b m) = Command.on_data (Request.push_line o (a ∷ b ∷ m ∷ []) 1)
meaning (pep_line o a b m) = Command.on_data (Request.pep_line o (a ∷ b ∷ m ∷ []) 1)
meaning (pop_vertex o n) = Command.del_vertex o (n % 2 ^ 16)
meaning (pop_material o n) = Command.on_data (Request.del_mat o (n % 2 ^ 16))
meaning (pop_polygon o n) = Command.on_data (Request.del_poly o (n % 2 ^ 16))
meaning (pop_line o n) = Command.on_data (Request.del_line o (n % 2 ^ 16))
meaning (pop_texture o n) = Command.on_data (Request.del_tex o (n % 2 ^ 16))
meaning (pep_polygon_tex_coord o a b c d e f) =
    Command.on_data (Request.pep_poly_texc o (a ∷ b ∷ c ∷ d ∷ e ∷ f ∷ []) 1)
meaning (pep_material_texture o t) = Command.on_data (Request.pep_mat_tex o (t ∷ []) 1)
meaning (flags_on o f) = Command.on_data (Request.toggle_flags o 1 f)
meaning (flags_off o f) = Command.on_data (Request.toggle_flags o 2 f)
meaning (scale o x) = Command.scale o x
meaning (push_material o a b c d e f g h i) =
    Command.on_data
      (Request.push_mat o (a ∷ b ∷ c ∷ one_f ∷ d ∷ e ∷ f ∷ one_f ∷ g ∷ h ∷ i ∷ one_f ∷ []) 1)
meaning (pep_material o a b c d e f g h i) =
    Command.on_data
      (Request.pep_mat o (a ∷ b ∷ c ∷ one_f ∷ d ∷ e ∷ f ∷ one_f ∷ g ∷ h ∷ i ∷ one_f ∷ []) 1)
meaning (push_texture o w h) = Command.push_tex o (w % 2 ^ 16 ∷ h % 2 ^ 16 ∷ []) 1
