-- ===== src/Object/Flags.antt =====
-- `obj_toggle_flags` of server/object.c: a client changes the low 24 flags of an object.
use Prim.Native.Nat.{bit_and, bit_or, bit_xor}
use s3d.Base.{ℕ, set, none, some, if◌then◌else◌, ◌==◌}
use s3d.Object.{minus_one, Obj, Table, Status, done, failed, obj_valid}

abbrev pub of_mask : ℕ
of_mask = 0x00FFFFFF

-- `OF_TURN_ON`, `OF_TURN_OFF`, `OF_TURN_SWAP`
abbrev pub of_turn_on : ℕ
of_turn_on = 1

abbrev pub of_turn_off : ℕ
of_turn_off = 2

abbrev pub of_turn_swap : ℕ
of_turn_swap = 3

module _ {F : Type 0} where
  -- the `switch` over the type of the change
  unfoldable pub toggle : Obj F → ℕ → ℕ → Status × Obj F
  toggle obj type f =
      if type == of_turn_on
      then (done, record obj { oflags = bit_or obj.oflags f })
      else if type == of_turn_off
      then (done, record obj { oflags = bit_and obj.oflags (bit_xor minus_one f) })
      else if type == of_turn_swap
      then (done, record obj { oflags = bit_xor obj.oflags f })
      else (failed, obj)

  -- An id that is not valid is no error here.
  unfoldable pub obj_toggle_flags : Table F → ℕ → ℕ → ℕ → Status × Table F
  unfolding toggle
  obj_toggle_flags t oid type flags = elim (obj_valid t oid) [
    | none ↦ (done, t)
    | some obj ↦
        let out = toggle obj type (bit_and flags of_mask) in (out.0, set t oid (some out.1))
  ]
