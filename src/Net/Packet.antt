-- ===== src/Net/Packet.antt =====
-- net/packet.h, net/packet.cpp. A packet is its buffer; a `ReaderPacket` has a reader as well.
pub mod Frame
use libra_core.Base.Buffer.Interface.{buffer_interface}
use libra_core.Common.{ℕ, ◌%◌, ◌^◌, Bool, List, Outcome, Exec, ◌>>=◌, ◌>>◌, pure, Text}
use libra_core.Base.Buffer.{Buffer, sub_size, static_buffer, set_size, copy}
use libra_core.Base.Bytes.{Endian, Scalar, int8, uint16}
use libra_core.Base.Reader.{read, read_string}
use libra_core.Base.Writer.{write, write_at, write_string}

abbrev pub header_size : ℕ
header_size = 6

abbrev pub body_len_ptr : ℕ
body_len_ptr = 2

abbrev pub cmd_ptr : ℕ
cmd_ptr = 4

abbrev pub packet_capacity : ℕ
packet_capacity = 0x10000

-- `Packet::Packet`.
unfoldable pub new_packet : Buffer
new_packet = static_buffer packet_capacity

pub body_size : Endian → Buffer → Outcome ℕ
body_size e p = (read e uint16 p body_len_ptr).0

-- The difference is cut to 16 bits by the type of `set<uint16_t>`.
pub set_body_size : Endian → Exec Buffer Bool
set_body_size e p = write_at e uint16 (sub_size p.ptr header_size % 2 ^ 16) body_len_ptr p

pub cmd : Endian → Buffer → Outcome ℕ
cmd e p = (read e uint16 p cmd_ptr).0

pub set_cmd : Endian → ℕ → Exec Buffer Bool
set_cmd e c = write_at e uint16 c cmd_ptr

-- `WriterPacket::WriterPacket`: what `set` answers is not looked at.
pub fill_header : Endian → ℕ → Exec Buffer (Unit {0})
unfolding set_cmd
fill_header e c = do
  set_size header_size
  write_at e int8 b'L' 0
  write_at e int8 b'I' 1
  set_cmd e c
  pure tt

pub writer_packet : Endian → ℕ → Outcome (Unit {0}) × Buffer
unfolding fill_header new_packet
writer_packet e c = fill_header e c new_packet

-- `WriterPacket::append` and `append_string`.
pub append : Endian → Scalar → ℕ → Exec Buffer Bool
append e s v = write e s v

pub append_string : Endian → Text → Exec Buffer Bool
append_string e s = write_string e s

pub record ReaderPacket : Type 0 where
  pub buffer : Buffer
  pub index : ℕ

unfoldable pub reader_packet : Buffer → ReaderPacket
reader_packet b = record { buffer = b; index = header_size }

-- `Packet::copy`, which leaves the reader where it was.
unfoldable pub copy_into : List ℕ → Exec Buffer (Unit {0})
copy_into bytes = do copy bytes; pure tt

-- `ReaderPacket::read` and `read_string`.
moved : {A : Type 0} → ReaderPacket → Outcome A × ℕ → Outcome A × ReaderPacket
moved p (r, i) = (r, record p { index = i })

pub read_number : Endian → Scalar → Exec ReaderPacket ℕ
unfolding moved
read_number e s p = moved p (read e s p.buffer p.index)

pub read_text : Endian → Exec ReaderPacket Text
unfolding moved
read_text e p = moved p (read_string e p.buffer p.index)
