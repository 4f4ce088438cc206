-- ===== src/Protocol/Ident.antt =====
-- The identifier helpers of protocol.h: message type in bits 10..7, node in bits 6..0.
use robot_joint_stack.Prelude.{ℕ, ◌+◌, ◌*◌, ◌/◌, ◌%◌, ◌≤◌, ◌<◌, ◌≡◌, arith, bit_and, bit_or}
use robot_joint_stack.Prelude.Word.{u8, u16, ◌<<<◌, ◌>>>◌}
use robot_joint_stack.Prelude.Bits.{bit_and-mask, bit_or-fields, bit_or_comm}
use robot_joint_stack.Protocol.{MsgType, msg_code}

unfoldable pub make_id : MsgType → ℕ → ℕ
make_id type node = u16 (bit_or (bit_and (u16 (msg_code type)) 0x0f <<< 7) (bit_and node 0x7f))

-- The enumeration's value: a code that no enumerator has is a value of the C type too.
unfoldable pub id_type : ℕ → ℕ
id_type id = bit_and (id >>> 7) 0x0f

unfoldable pub id_node : ℕ → ℕ
id_node id = u8 (bit_and id 0x7f)

pub msg_code-lt : (type : MsgType) → msg_code type < 16
msg_code-lt type = ground arith

-- The packed identifier as a number.
pub make_id-eq : (type : MsgType) (node : ℕ) → make_id type node ≡ msg_code type * 128 + node % 128
unfolding make_id
make_id-eq type node = ground (
  arith,
  msg_code-lt type,
  bit_and-mask 4 (msg_code type),
  bit_and-mask 7 node,
  bit_or_comm (msg_code type * 128) (node % 128),
  bit_or-fields 7 (node % 128) (msg_code type),
)

pub id_type-eq : (id : ℕ) → id_type id ≡ id / 128 % 16
unfolding id_type
id_type-eq id = bit_and-mask 4 (id / 128)

pub id_node-eq : (id : ℕ) → id_node id ≡ id % 128
unfolding id_node
id_node-eq id = omega (arith, bit_and-mask 7 id)

-- An identifier built from a message type and a node gives both back, the node modulo 128.
pub id_fields-make_id :
    (type : MsgType) (node : ℕ)
    → (id_type (make_id type node) ≡ msg_code type) × (id_node (make_id type node) ≡ node % 128)
id_fields-make_id type node = (
  omega (arith, id_type-eq (make_id type node), make_id-eq type node, msg_code-lt type),
  omega (arith, id_node-eq (make_id type node), make_id-eq type node),
)

-- Of two frames with message types of different priority, the one with the lower type code has the
-- lower identifier and wins arbitration, whichever nodes send them; and every identifier fits the
-- 11 bits of a standard identifier.
pub make_id_priority :
    (first second : MsgType) (node other : ℕ)
    → msg_code first < msg_code second
    → (make_id first node < make_id second other) × (make_id second other ≤ 0x7ff)
make_id_priority first second node other h =
    omega (arith, make_id-eq first node, make_id-eq second other, msg_code-lt second)
